-- ===== src/Pollish/Closed.antt =====
-- `yoi_unix_onclose`.
use libyaooi.Prelude.{
  ℕ, ◌≡◌, ◌<◌, suc, zero, refl, ap, ◌∙◌, false, List, [], ◌∷◌, ◌==◌, arith, length,
}
use libyaooi.Errno.{Code}
use libyaooi.Dlist.{Slot}
use libyaooi.Dlist.Chain.{Chain, nil, cons, Spells}
use libyaooi.Queue.{req_end, canceled}
use libyaooi.Queue.Drain.{end_all}
use libyaooi.Pollish.{Desc, onclose_from, onclose}

abbrev pub all_canceled : List ℕ → List (ℕ × ℕ)
all_canceled [] = []
all_canceled (x ∷ xs) = (x, canceled) ∷ all_canceled xs

module _ {B : Type 0} (setmask : ℕ → ℕ → B → Code × B) where
  onclose_from_lem :
      {next : ℕ → ℕ} {slot : ℕ → Slot} {s : Slot} {p : ℕ} {xs : List ℕ} (fuel : ℕ) (d : Desc B)
      → Chain next slot s p xs
      → d.links.next ≡ next
      → length xs < fuel
      → (onclose_from setmask fuel p d).heap ≡ end_all (all_canceled xs) d.heap
  unfolding onclose_from end_all
  onclose_from_lem zero d c e lt = absurd (ground arith)
  onclose_from_lem (suc fuel) d nil e lt = refl
  onclose_from_lem (suc fuel) d (cons {p} {xs} ne here out c) e lt =
      let nz : (p == 0) ≡ false = ground arith in
      let d1 : Desc B = record d {
        poller = (setmask (d.heap.req p).queue 0 d.poller).1;
        heap = req_end p canceled d.heap;
      } in
      rw nz (
        ap (λ f. (onclose_from setmask fuel (f p) d1).heap) e
        ∙ onclose_from_lem fuel d1 c e (ground arith))

  -- With more rounds than there are pending requests, closing the descriptor ends all of them, in the order of the
  -- list, with YO_ECANCELED.
  pub onclose_lem :
      (fuel : ℕ) (d : Desc B) (xs : List ℕ)
      → Spells d.links xs
      → length xs < fuel
      → (onclose setmask fuel d).heap ≡ end_all (all_canceled xs) d.heap
  onclose_lem fuel d xs c lt = onclose_from_lem fuel d c refl lt
