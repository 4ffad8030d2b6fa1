-- ===== src/Dlist/Tests.antt =====
-- A list of three nodes, 1, 2 and 3, with the second taken out and put in front again.
use libyaooi.Prelude.{ℕ, ◌≡◌, refl, [], ◌∷◌, ◌==◌, if◌then◌else◌, arith}
use libyaooi.Dlist.{Slot, at_head, at_next, Links, store, dlist_add, dlist_del}
use libyaooi.Dlist.Chain.{nil, cons, Spells}
use libyaooi.Dlist.Del.{dlist_del_lem}

abbrev three_next : ℕ → ℕ
three_next k = if k == 1 then 2 else (if k == 2 then 3 else 0)

abbrev three_slot : ℕ → Slot
three_slot k = if k == 1 then at_head else (if k == 2 then at_next 1 else at_next 2)

abbrev three : Links
three = record { head = 1; next = three_next; slot = three_slot }

three-Spells : Spells three (1 ∷ 2 ∷ 3 ∷ [])
three-Spells =
    cons (ground arith) refl refl
      (cons (ground arith) refl refl (cons (ground arith) refl refl nil))

dlist_del_example : Spells (dlist_del 2 three) (1 ∷ 3 ∷ [])
dlist_del_example = dlist_del_lem 2 three (1 ∷ 2 ∷ 3 ∷ []) refl three-Spells

-- The second is taken out and put in front.
moved : Links
moved = dlist_add 2 (dlist_del 2 three)

moved_head : moved.head ≡ 2
unfolding moved dlist_add dlist_del store
moved_head = refl

moved_next : moved.next 2 ≡ 1
unfolding moved dlist_add dlist_del store
moved_next = refl
