-- ===== src/Ansi/Tests.antt =====
-- A sleep of two microseconds and a half, over readings of which the third ends it.
use libyaooi.Prelude.{◌≡◌, some, [], ◌∷◌, ◌++◌, arith}
use libyaooi.Prelude.Int.{pos}
use libyaooi.Time.{Time}
use libyaooi.Ansi.Clock.{timesleep}
use libyaooi.Ansi.Clock.Slept.{timesleep_first}

abbrev until : Time
until = record { sec = pos 0; nsec = 2500 }

timesleep_first_example : timesleep 1000000 until ((0 ∷ 1 ∷ []) ++ 3 ∷ 9 ∷ []) ≡ some 3
timesleep_first_example =
    timesleep_first until (0 ∷ 1 ∷ []) (9 ∷ []) 3 (omega arith, (omega arith, tt)) (omega arith)
