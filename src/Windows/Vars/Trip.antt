-- ===== src/Windows/Vars/Trip.antt =====
-- What is read of a variable behind what was written.
use libyaooi.Prelude.{ℕ, ◌≡◌, some, [], ◌∷◌, none}
use libyaooi.Errno.{Code}
use libyaooi.Windows.Cmdline.{Text}
use libyaooi.Windows.Errors.{WinError}
use libyaooi.Windows.Conversions.{Conversions}
use libyaooi.Windows.Vars.{Got, failing}

-- What is given for a value: nothing, with YO_EUNKNOWN; but the code of the last error for an empty value.
abbrev pub Lost : (wval : Text) → (blocks : ℕ) → Got → Type 0
Lost [] blocks got = (e : WinError) × (got ≡ failing e blocks)
Lost (c ∷ cs) blocks got = got ≡ record { code = some Code.eunknown; pres = none; blocks = blocks }
