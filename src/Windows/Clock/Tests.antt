-- ===== src/Windows/Clock/Tests.antt =====
-- The start of the year 1970, and a counter with a frequency of 3.
use libyaooi.Prelude.{◌≡◌, refl}
use libyaooi.Prelude.Int.{negsuc, ◌-ℤ◌}
use libyaooi.Windows.Clock.{conv_filetime}

conv_filetime-epoch : (conv_filetime 116444736000000000).sec ≡ negsuc 10480026239
unfolding conv_filetime ◌-ℤ◌
conv_filetime-epoch = refl
