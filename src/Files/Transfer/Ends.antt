-- ===== src/Files/Transfer/Ends.antt =====
-- Reads of a file, up to its end and behind it.
use libyaooi.Prelude.{ℕ, ◌-◌, ◌==◌, ltb, if◌then◌else◌}
use libyaooi.Windows.Errors.{WinError}
use libyaooi.Windows.Spawn.{Attempt, given, denied}

-- The bytes that a file of `size` bytes has behind an offset, at most `n` of them: what pread answers.
abbrev pub available : (n offset size : ℕ) → ℕ
available n offset size = if ltb (size - offset) n then size - offset else n

-- What ReadFile answers with an offset.
abbrev pub read_at : (n offset size : ℕ) → Attempt ℕ
read_at n offset size =
    if ltb offset size
    then given (available n offset size)
    else if n == 0
    then given 0
    else denied WinError.error_handle_eof
