-- ===== src/Files/Transfer.antt =====
-- The transfers of src/unix/impl.c and of src/win/impl.c: `yo_read`, `yo_write`, `yo_file_read` and `yo_file_write`, by
-- the number of bytes that the system's call answers. The bytes themselves are the system's.

pub mod Ends
mod Tests
use libyaooi.Prelude.{ℕ, ◌%◌, ◌^◌, Bool, true, false, Option, some, ◌==◌, if◌then◌else◌}
use libyaooi.Errno.{Code}
use libyaooi.Errno.Unix as Unix
use libyaooi.Socket.{Answer, done, fails}
use libyaooi.Windows.Errno as Windows
use libyaooi.Windows.Spawn.{Attempt, given, denied}

-- The code, and the number behind `pn` then.
pub record Moved : Type 0 where
  pub code : Option Code
  pub n : ℕ

abbrev pub moved : ℕ → Moved
moved k = record { code = some Code.ok; n = k }

abbrev pub unmoved : Option Code → ℕ → Moved
unmoved code n = record { code = code; n = n }

-- `yo_read` and `yo_write` of the unix port.
unfoldable pub unix_transfer : (isfd : Bool) → (n : ℕ) → Answer ℕ → Moved
unix_transfer false n r = unmoved (some Code.ebadfd) n
unix_transfer true n (fails e) = unmoved (Unix.conv_errno e) n
unix_transfer true n (done k) = if k == 0 then unmoved (some Code.eof) n else moved k

-- `yo_file_read` and `yo_file_write` of the unix port.
unfoldable pub unix_file_transfer : (isfd : Bool) → (n : ℕ) → Answer ℕ → Moved
unix_file_transfer false n r = unmoved (some Code.ebadfd) n
unix_file_transfer true n (fails e) = unmoved (Unix.conv_errno e) n
unix_file_transfer true n (done k) =
    if n == 0 then moved k else if k == 0 then unmoved (some Code.eof) n else moved k

-- What a handle of the Windows port is.
pub data Kind : Type 0 where
  hnd : Kind
  sock : Kind
  other : Kind

-- What ReadFile and WriteFile are asked for, a DWORD, and the bits of the int that recv and send are asked for.
abbrev pub dword : ℕ → ℕ
dword n = n % 2 ^ 32

-- Behind ReadFile and WriteFile, and behind recv and send.
abbrev pub on_file : (n : ℕ) → Attempt ℕ → Moved
on_file n (denied e) = unmoved (Windows.conv_errno e) n
on_file n (given k) = moved k

abbrev pub on_socket : (n : ℕ) → Attempt ℕ → Moved
on_socket n (denied e) = unmoved (Windows.conv_errno e) n
on_socket n (given k) = if k == 0 then unmoved (some Code.eof) n else moved k

-- `yo_read` and `yo_write` of the Windows port; the call of the system answers for the number that it is asked for.
unfoldable pub win_transfer : Kind → (n : ℕ) → (ℕ → Attempt ℕ) → Moved
win_transfer other n call = unmoved (some Code.ebadfd) n
win_transfer hnd n call = on_file n (call (dword n))
win_transfer sock n call = on_socket n (call (dword n))

-- `yo_file_read` and `yo_file_write` of the Windows port.
unfoldable pub win_file_transfer : Kind → (n : ℕ) → (ℕ → Attempt ℕ) → Moved
win_file_transfer hnd n call = on_file n (call (dword n))
win_file_transfer sock n call = unmoved (some Code.ebadfd) n
win_file_transfer other n call = unmoved (some Code.ebadfd) n
