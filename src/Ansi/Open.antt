-- ===== src/Ansi/Open.antt =====
-- `yo_file_open` of src/ansi/impl.c: the mode that fopen is given.
pub mod Modes
mod Tests
use libyaooi.Prelude.{ℕ, ◌+◌, ◌-◌, Bool, true, false, Option, none, some, ◌==◌, if◌then◌else◌}
use libyaooi.Files.{flag}
use libyaooi.Files.Flags

-- "rb", "rb+", "ab", "wb" and "wb+"
pub data Mode : Type 0 where
  rb rb_plus ab wb wb_plus : Mode

-- A handle that keeps the path only, or a stream.
pub data Opened : Type 0 where
  at_path : Opened
  stream : Mode → Opened

abbrev pub without : ℕ → ℕ → ℕ
without bit flags = if flag bit flags then flags - bit else flags

-- `flags &= ~(YO_OPEN_SHARED | YO_OPEN_DIRECT)`
abbrev pub masked : ℕ → ℕ
masked flags = without Flags.direct (without Flags.shared flags)

-- The cases of the switch; none is YO_ENOTSUP.
unfoldable pub mode_of : ℕ → Option Opened
mode_of flags =
    if flags == Flags.stat
    then some at_path
    else if flags == Flags.read
    then some (stream rb)
    else if flags == Flags.read + Flags.write
    then some (stream rb_plus)
    else if flags == Flags.write + Flags.append + Flags.create
    then some (stream ab)
    else if flags == Flags.append + Flags.create
    then some (stream ab)
    else if flags == Flags.write + Flags.trunc
    then some (stream wb)
    else if flags == Flags.read + Flags.write + Flags.trunc
    then some (stream wb_plus)
    else none

unfoldable pub open_mode : ℕ → Option Opened
open_mode flags = mode_of (masked flags)
