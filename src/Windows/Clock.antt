-- ===== src/Windows/Clock.antt =====
-- `yoi_win_conv_filetime` of src/win/impl.c, and the clocks of its `yo_time`.
pub mod Exact
mod Tests
use libyaooi.Prelude.{ℕ, ◌+◌, ◌*◌, ◌/◌, ◌%◌, ◌^◌}
use libyaooi.Prelude.Int.{pos, ◌-ℤ◌}
use libyaooi.Time.{Time, timeadd}

abbrev pub epoch_difference : ℕ
epoch_difference = 11644473600

-- A FILETIME is its number of ticks, of 100 nanoseconds each, since the year 1601. The nanoseconds are kept in
-- 32 bits.
unfoldable pub conv_filetime : ℕ → Time
conv_filetime ticks = record {
  sec = pos (ticks / 100000000) -ℤ pos epoch_difference;
  nsec = ticks % 100000000 * 100 % 2 ^ 32;
}

-- YO_CLOCK_MONO, where the frequency is not 0 and the product of the nanoseconds fits in 64 bits.
unfoldable pub time_mono : (counter freq : ℕ) → Time
time_mono counter freq = record {
  sec = pos (counter / freq);
  nsec = counter % freq * 1000000000 / freq;
}

-- YO_CLOCK_CPU
abbrev pub time_cpu : (kernel user : ℕ) → Time
time_cpu kernel user = timeadd (conv_filetime kernel) (conv_filetime user)
