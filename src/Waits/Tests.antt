-- ===== src/Waits/Tests.antt =====
-- A deadline of two seconds, a second before it and five seconds behind it; and a sleep that is interrupted.
use libyaooi.Prelude.{ℕ, ◌^◌, ◌≤◌, ◌≡◌, ◌⊎◌, arith}
use libyaooi.Errno.Os.{Errno}
use libyaooi.Prelude.Int.{pos, pos_part}
use libyaooi.Time.{Time}
use libyaooi.Waits.{wait_ms, poll_ms}
use libyaooi.Waits.Enough.{Waits, poll_ms-Waits}

abbrev second : ℕ → Time
second s = record { sec = pos s; nsec = 500 }

poll_ms-Waits_example :
    Waits (second 2) (second 1)
    × ((poll_ms (second 2) (second 1) ≡ wait_ms (second 2) (second 1))
        ⊎ (2 ^ 31 ≤ pos_part (wait_ms (second 2) (second 1))))
poll_ms-Waits_example = poll_ms-Waits (second 2) (second 1) (omega arith) (omega arith)
