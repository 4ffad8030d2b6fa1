-- ===== src/Windows/Clock/Exact.antt =====
-- When the clocks give a time that is right.
use native.Mathlib.Nat.{mod-lt, div-lt_iff_lt-mul}
use libyaooi.Prelude.{ap, ℕ, ◌+◌, ◌*◌, ◌/◌, ◌%◌, ◌≤◌, ◌<◌, ◌≡◌, ◌↔◌, arith}
use libyaooi.Prelude.Int.{pos, pos_part, neg_part, ◌-ℤ◌, int_laws}
use libyaooi.Time.{giga}
use libyaooi.Time.Laws.{nanos, IsNormal}
use libyaooi.Windows.Clock.{conv_filetime, epoch_difference, time_mono}

-- `yoi_win_conv_filetime` gives the nanoseconds since 1970 of a FILETIME exactly where it is one of the first
-- 42949673 ticks of the year 1601.
pub nanos-conv_filetime :
    (ticks : ℕ)
    → (nanos (conv_filetime ticks) ≡ pos (ticks * 100) -ℤ pos (epoch_difference * giga))
      ↔ (ticks < 42949673)
unfolding conv_filetime
nanos-conv_filetime ticks =
    (λ e. omega (int_laws, ap pos_part e, ap neg_part e), λ h. omega int_laws)

-- The quotient and the remainder, with the products that `omega` reads as numbers.
scaled :
    (q r n m freq : ℕ)
    → r * 1000000000 ≡ n * freq + m
    → m < freq
    → (q * 1000000000 + n) * freq ≤ (q * freq + r) * 1000000000
      × (q * freq + r) * 1000000000 < (q * 1000000000 + n + 1) * freq
scaled q r n m freq e l = (grind arith, grind arith)

-- Where the frequency is not 0, the monotonic clock gives a normalised time: the last nanosecond that is
-- not behind the counter.
pub time_mono_lem :
    (counter freq : ℕ)
    → 1 ≤ freq
    → IsNormal (time_mono counter freq)
      × ((counter / freq * giga + (time_mono counter freq).nsec) * freq ≤ counter * giga)
      × (counter * giga < (counter / freq * giga + (time_mono counter freq).nsec + 1) * freq)
unfolding time_mono
time_mono_lem counter freq h =
    let r_lt : counter % freq < freq = mod-lt counter h in
    let n_lt : counter % freq * 1000000000 % freq < freq = mod-lt (counter % freq * 1000000000) h in
    let (low, high) =
      scaled (counter / freq) (counter % freq) (counter % freq * 1000000000 / freq)
        (counter % freq * 1000000000 % freq) freq (omega arith) n_lt in
    ((div-lt_iff_lt-mul h).1 (omega (arith, r_lt)), omega (arith, low), omega (arith, high))
