-- ===== src/Time/Tests.antt =====
-- Runs of `Time`, and its theorems at concrete times.
use libyaooi.Prelude.{◌≡◌, ◌≢◌, ◌↔◌, refl, ◌+◌, arith}
use libyaooi.Prelude.Int.{pos, negsuc, ◌-ℤ◌, ◌+ℤ◌, ◌*ℤ◌}
use libyaooi.Time.{Time, giga, timeadd, timesub, timems}
use libyaooi.Time.Laws.{IsNormal, timeadd-IsNormal}

abbrev early : Time
early = record { sec = pos 3; nsec = 700000000 }

abbrev late : Time
late = record { sec = pos 9; nsec = 400000000 }

sum_run : timeadd early late ≡ record { sec = pos 13; nsec = 100000000 }
unfolding timeadd ◌+ℤ◌
sum_run = refl

difference_run : timesub early late ≡ record { sec = negsuc 5; nsec = 300000000 }
unfolding timesub ◌-ℤ◌ ◌+ℤ◌
difference_run = refl

-- 0.5 s and 0.5 s make 0 s and 1000000000 ns.
half_and_half :
    let half : Time = record { sec = pos 0; nsec = 500000000 } in
    timeadd half half ≡ record { sec = pos 0; nsec = giga }
unfolding timeadd ◌+ℤ◌
half_and_half = refl

milliseconds_run : timems early ≡ pos 3700
unfolding timems ◌*ℤ◌ ◌+ℤ◌
milliseconds_run = refl

timeadd-IsNormal_example : IsNormal (timeadd early late) ↔ (700000000 + 400000000 ≢ giga)
timeadd-IsNormal_example = timeadd-IsNormal early late (omega arith) (omega arith)
