-- ===== src/Files.antt =====
-- The flags of a file that is opened, `yoi_unix_conv_open_flags` of src/unix/impl.c, as Linux is built.
pub mod Flags
pub mod Opened
pub mod Transfer
mod Tests
use libyaooi.Prelude.{ℕ, ◌+◌, ◌/◌, ◌%◌, Bool, true, false, not, ◌||◌, ◌==◌, if◌then◌else◌}
use libyaooi.Files.Flags

-- Whether the flag of value `bit`, a power of two, is in `flags`.
abbrev pub flag : ℕ → ℕ → Bool
flag bit flags = flags / bit % 2 == 1

-- O_RDONLY is 0, so it is also what no access flag makes.
pub data Access : Type 0 where
  rdonly wronly rdwr : Access

-- The flags of open(2), each by its name.
pub record OsFlags : Type 0 where
  pub o_path : Bool
  pub o_append : Bool
  pub access : Access
  pub o_creat : Bool
  pub o_trunc : Bool
  pub o_sync : Bool
  pub o_nofollow : Bool
  pub o_cloexec : Bool

abbrev pub access_of : (read write : Bool) → Access
access_of read write =
    if write then (if read then Access.rdwr else Access.wronly) else Access.rdonly

unfoldable pub conv_open_flags : ℕ → OsFlags
conv_open_flags flags =
    let stat : Bool = flag Flags.stat flags in
    let append : Bool = flag Flags.append flags in
    let write : Bool = if append then true else flag Flags.write flags in
    let access : Access = if stat then Access.rdonly else access_of (flag Flags.read flags) write in
    record {
      o_path = stat;
      o_append = if stat then false else append;
      access = access;
      o_creat = flag Flags.create flags;
      o_trunc = flag Flags.trunc flags;
      o_sync = flag Flags.direct flags;
      o_nofollow = flag Flags.nofollow flags;
      o_cloexec = not (flag Flags.shared flags);
    }
