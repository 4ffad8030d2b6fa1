-- ===== src/Poll/Tests.antt =====
-- A backend with one node, 5, for descriptor 3; descriptor 4 is added and 3 is forgotten.
use libyaooi.Prelude.{ℕ, ◌≡◌, refl, [], ◌∷◌, arith}
use libyaooi.Dlist.{Slot, at_head, Links, dlist_del}
use libyaooi.Dlist.Chain.{nil, cons}
use libyaooi.Poll.{Backend, find_from, setmask}
use libyaooi.Poll.Update.{Registered}

abbrev no_node : ℕ → ℕ
no_node k = 0

abbrev of_head : ℕ → Slot
of_head k = at_head

abbrev three : ℕ → ℕ
three k = 3

abbrev one_link : Links
one_link = record { head = 5; next = no_node; slot = of_head }

abbrev one : Backend
one = record { links = one_link; fd = three; evn = three; udata = no_node }

one-Registered : Registered one (5 ∷ [])
one-Registered = (cons (ground arith) refl refl nil, refl)

-- Mask 0 takes the node of the descriptor out.
forgotten : (setmask 2 7 99 3 0 one).1.links.head ≡ 0
unfolding setmask find_from dlist_del
forgotten = refl
