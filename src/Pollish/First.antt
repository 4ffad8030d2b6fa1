-- ===== src/Pollish/First.antt =====
-- `_yoi_pl_get_req`.
use libyaooi.Prelude.{
  ℕ, ◌≡◌, ◌<◌, suc, zero, refl, false, List, [], ◌∷◌, ◌==◌, if◌then◌else◌, arith, length,
}
use libyaooi.Dlist.Chain.{Chain, nil, cons, Spells}
use libyaooi.Dlist.{Slot}
use libyaooi.Pollish.{Kind, Desc, tomask, meets, get_from, get_req}

-- The first of the requests that waits for something that is ready, or 0.
unfoldable pub first_ready : (ℕ → Kind) → ℕ → List ℕ → ℕ
first_ready kind ready [] = 0
first_ready kind ready (x ∷ xs) =
    if meets (tomask (kind x)) ready then x else first_ready kind ready xs

module _ {B : Type 0} where
  get_from_lem :
      (fuel ready : ℕ) (d : Desc B) {s : Slot} {p : ℕ} {xs : List ℕ}
      → Chain d.links.next d.links.slot s p xs
      → length xs < fuel
      → get_from fuel p ready d ≡ first_ready d.kind ready xs
  unfolding get_from first_ready
  get_from_lem zero ready d c lt = absurd (ground arith)
  get_from_lem (suc fuel) ready d nil lt = refl
  get_from_lem (suc fuel) ready d (cons {p} {xs} ne here out c) lt =
      let nz : (p == 0) ≡ false = ground arith in
      rw (nz, get_from_lem fuel ready d c (ground arith)) refl

  -- With more rounds than there are pending requests, `_yoi_pl_get_req` gives the first of the list that waits for
  -- something that is ready, and NULL where there is none.
  pub get_req_lem :
      (fuel ready : ℕ) (d : Desc B) (xs : List ℕ)
      → Spells d.links xs
      → length xs < fuel
      → get_req fuel ready d ≡ first_ready d.kind ready xs
  get_req_lem fuel ready d xs c lt = get_from_lem fuel ready d c lt
