-- ===== src/Windows/Files.antt =====
-- `yo_file_open` and `yo_file_remove` of src/win/impl.c. What malloc, the conversion of the path and the system's calls
-- answer are arguments.

pub mod Opened
pub mod Removed
mod Tests
use libyaooi.Prelude.{ℕ, Bool, true, false, not, ◌&&◌, ◌||◌, Option, none, some, if◌then◌else◌}
use libyaooi.Errno.{Code}
use libyaooi.Files.{flag}
use libyaooi.Files.Flags
use libyaooi.Windows.Cmdline.{Text}
use libyaooi.Windows.Errno.{conv_errno}
use libyaooi.Windows.Errors.{WinError}
use libyaooi.Windows.Spawn.{Attempt, given, denied, Handles, set_error, opening, malloc, free}

pub data CreateMode : Type 0 where
  open_existing open_always truncate_existing create_always : CreateMode

-- The arguments of CreateFileW that depend on the flags. FILE_GENERIC_WRITE is the right to write data and the
-- right to append data, and the rights that both bring.
pub record CreateFlags : Type 0 where
  pub reads : Bool
  pub writes : Bool
  pub appends : Bool
  pub share_write : Bool
  pub share_delete : Bool
  pub mode : CreateMode
  pub write_through : Bool

-- The switch over YO_OPEN_CREATE and YO_OPEN_TRUNC.
abbrev pub create_mode_of : (create trunc : Bool) → CreateMode
create_mode_of false false = CreateMode.open_existing
create_mode_of true false = CreateMode.open_always
create_mode_of false true = CreateMode.truncate_existing
create_mode_of true true = CreateMode.create_always

unfoldable pub create_flags : ℕ → CreateFlags
create_flags flags =
    let active : Bool = not (flag Flags.stat flags) in
    let append : Bool = flag Flags.append flags in
    let write : Bool = active && (if append then true else flag Flags.write flags) in
    let read : Bool = active && flag Flags.read flags in
    record {
      reads = read;
      writes = write;
      appends = write && append;
      share_write = not write;
      share_delete = not (read || write);
      mode = create_mode_of (flag Flags.create flags) (flag Flags.trunc flags);
      write_through = flag Flags.direct flags;
    }

-- A code, the handle of the descriptor that is stored through `pres`, and the handles and blocks.
pub record Reply : Type 0 where
  pub code : Option Code
  pub handle : Option ℕ
  pub left : Handles

abbrev pub no_block : Handles → Reply
no_block l = record { code = some Code.enomem; handle = none; left = l }

abbrev pub failed : Handles → Reply
failed l = record { code = conv_errno l.error; handle = none; left = l }

abbrev pub stored : ℕ → Handles → Reply
stored h l = record { code = some Code.ok; handle = some h; left = l }

-- Behind CreateFileW, and behind the conversion of the path, where the block of the path is freed on every way.
abbrev pub on_file : Attempt ℕ → Handles → Reply
on_file (denied e) l = failed (free (set_error e l))
on_file (given h) l = stored h (opening h l)

abbrev pub on_path : (create : Text → CreateFlags → Attempt ℕ) → ℕ → Attempt Text → Handles → Reply
on_path create flags (denied e) l = failed (free (set_error e l))
on_path create flags (given wpath) l = on_file (create wpath (create_flags flags)) (free (malloc l))

unfoldable pub file_open :
    (memory : Bool)
    → (wpath : Attempt Text) → (create : Text → CreateFlags → Attempt ℕ) → (flags : ℕ) → Handles
    → Reply
file_open false wpath create flags l = no_block l
file_open true wpath create flags l = on_path create flags wpath (malloc l)

-- The functions that delete, over any state of the file system.
pub record Deletion (S : Type 0) : Type 0 where
  pub delete_file : Text → S → Attempt Unit × S
  pub remove_directory : Text → S → Attempt Unit × S

abbrev pub is_access_denied : WinError → Bool
is_access_denied WinError.error_access_denied = true
is_access_denied _ = false

module _ {S : Type 0} where
  -- Behind RemoveDirectoryW, and behind DeleteFileW.
  abbrev pub on_directory : Attempt Unit × S → Option Code × S
  on_directory (given _, s) = (some Code.ok, s)
  on_directory (denied e, s) = (conv_errno e, s)

  abbrev pub on_delete : Deletion S → Text → Attempt Unit × S → Option Code × S
  on_delete d wpath (given _, s) = on_directory (d.remove_directory wpath s)
  on_delete d wpath (denied e, s) =
      if is_access_denied e then on_directory (d.remove_directory wpath s) else (conv_errno e, s)

  -- `yo_file_remove`
  unfoldable pub file_remove : Deletion S → Attempt Text → S → Option Code × S
  file_remove d (denied e) s = (conv_errno e, s)
  file_remove d (given wpath) s = on_delete d wpath (d.delete_file wpath s)
