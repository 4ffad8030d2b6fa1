-- ===== src/Fallback/Poll/Tests.antt =====
-- A request that is missed, and a deadline that passes.
use libyaooi.Prelude.{ℕ, ◌≡◌, none, some, [], ◌∷◌, ◌++◌, arith}
use libyaooi.Prelude.Int.{pos, int_laws}
use libyaooi.Errno.{Code}
use libyaooi.Time.{Time}
use libyaooi.Fallback.Poll.{begin, turn, req_end, own, ends, here, next, spin}
use libyaooi.Fallback.Poll.Wakeups.{Accounted, Reach-Accounted}
use libyaooi.Fallback.Poll.Spin.{spin-etimeout}

Reach-Accounted_example : Accounted (turn (req_end 7 (turn begin)))
Reach-Accounted_example = Reach-Accounted (next (next (next here own) (ends 7)) own)

abbrev second : ℕ → Time
second s = record { sec = pos s; nsec = 0 }

spin-etimeout_example :
    (spin (some (second 2)) [] (second 1 ∷ second 2 ∷ []) ≡ none)
    × (spin (some (second 2)) [] ((second 1 ∷ second 2 ∷ []) ++ (second 3 ∷ []))
        ≡ some (Code.etimeout, none))
    × (spin (some (second 2)) (9 ∷ []) (second 1 ∷ second 2 ∷ []) ≡ some (Code.ok, some 9))
spin-etimeout_example =
    spin-etimeout (second 2) (second 1 ∷ second 2 ∷ []) (second 3) [] 9 [] (omega arith)
      ((omega arith, omega int_laws), ((omega arith, omega int_laws), tt)) (omega arith)
      (omega int_laws)
