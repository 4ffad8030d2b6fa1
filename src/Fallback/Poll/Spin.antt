-- ===== src/Fallback/Poll/Spin.antt =====
-- When the poller without threads returns.
use libyaooi.Prelude.{
  ℕ, ◌≡◌, refl, ap, true, false, inl, inr, none, some, List, [], ◌∷◌, ◌++◌, All, arith,
}
use libyaooi.Prelude.Int.{pos, pos_part, neg_part, ltb_ℤ, ◌≤ℤ◌, ◌<ℤ◌}
use libyaooi.Errno.{Code}
use libyaooi.Time.{Time, timecmp}
use libyaooi.Time.Laws.{IsNormal, nanos, timecmp-nanos}
use libyaooi.Fallback.Poll.{spin}

-- A reading of the clock that is not behind the deadline.
abbrev pub NotAfter : Time → Time → Type 0
NotAfter deadline now = IsNormal now × (nanos now ≤ℤ nanos deadline)

not_after :
    (deadline now : Time)
    → IsNormal deadline
    → NotAfter deadline now
    → ltb_ℤ (pos 0) (timecmp now deadline) ≡ false
not_after deadline now d (n, l) = elim (timecmp-nanos now deadline n d) [
  | inl (e, lt) ↦ rw e refl
  | inr (inl (e, same)) ↦ rw e refl
  | inr (inr (e, gt)) ↦ absurd (omega (arith, l, gt))
]

after :
    (deadline now : Time)
    → IsNormal deadline
    → IsNormal now
    → nanos deadline <ℤ nanos now
    → ltb_ℤ (pos 0) (timecmp now deadline) ≡ true
after deadline now d n l = elim (timecmp-nanos now deadline n d) [
  | inl (e, lt) ↦ absurd (omega (arith, l, lt))
  | inr (inl (e, same)) ↦
      absurd
        (omega (arith, l, ap (λ t. pos_part (nanos t)) same, ap (λ t. neg_part (nanos t)) same))
  | inr (inr (e, gt)) ↦ rw e refl
]

-- Without threads, `yo_queue_poll` gives the request that is ready, whatever the time is; and where none is ready, it returns
-- YO_ETIMEOUT with the first reading of the clock that is behind the deadline, and not before.
pub spin-etimeout :
    (deadline : Time) (before : List Time) (now : Time) (rest : List Time) (r : ℕ) (ready : List ℕ)
    → IsNormal deadline
    → All (NotAfter deadline) before
    → IsNormal now
    → nanos deadline <ℤ nanos now
    → (spin (some deadline) [] before ≡ none)
      × (spin (some deadline) [] (before ++ (now ∷ rest)) ≡ some (Code.etimeout, none))
      × (spin (some deadline) (r ∷ ready) before ≡ some (Code.ok, some r))
unfolding spin
spin-etimeout deadline [] now rest r ready d h n l =
    (refl, rw (after deadline now d n l) refl, refl)
spin-etimeout deadline (t ∷ before) now rest r ready d (h, hs) n l =
    let (none_yet, at_last, given_at_once) =
      spin-etimeout deadline before now rest r ready d hs n l in
    let early = not_after deadline t d h in (rw early none_yet, rw early at_last, refl)
