-- ===== src/Windows/Files/Removed.antt =====
-- What `yo_file_remove` of src/win/impl.c does to a path.
use libyaooi.Prelude.{◌≡◌, Bool, true, false, Option, some}
use libyaooi.Errno.{Code}
use libyaooi.Windows.Cmdline.{Text}
use libyaooi.Windows.Errors.{WinError}
use libyaooi.Windows.Spawn.{Attempt, given, denied}
use libyaooi.Windows.Files.{Deletion}

-- What is at a path.
pub data Entry : Type 0 where
  absent : Entry
  file : Entry
  directory : (empty : Bool) → Entry

-- What the functions that delete answer, and what is at their path then.
abbrev pub deleted_file : Entry → Attempt Unit × Entry
deleted_file absent = (denied WinError.error_file_not_found, absent)
deleted_file file = (given tt, absent)
deleted_file (directory empty) = (denied WinError.error_access_denied, directory empty)

abbrev pub removed_directory : Entry → Attempt Unit × Entry
removed_directory absent = (denied WinError.error_file_not_found, absent)
removed_directory file = (denied WinError.error_directory, file)
removed_directory (directory true) = (given tt, absent)
removed_directory (directory false) = (denied WinError.error_dir_not_empty, directory false)

-- A file system whose functions do, at a path, what their documentation says.
pub record FileSystem : Type 1 where
  pub State : Type 0
  pub deletion : Deletion State
  pub at : Text → State → Entry
  pub deletes :
      (path : Text) (s : State)
      → ((deletion.delete_file path s).0, at path (deletion.delete_file path s).1)
        ≡ deleted_file (at path s)
  pub removes :
      (path : Text) (s : State)
      → ((deletion.remove_directory path s).0, at path (deletion.remove_directory path s).1)
        ≡ removed_directory (at path s)

-- The code and what is at the path then.
abbrev pub removed : Entry → Option Code × Entry
removed absent = (some Code.enoent, absent)
removed file = (some Code.enoent, absent)
removed (directory true) = (some Code.ok, absent)
removed (directory false) = (some Code.enotempty, directory false)

-- A single path, as a file system.
abbrev pub entries : Deletion Entry
entries = record {
  delete_file = λ path e. deleted_file e;
  remove_directory = λ path e. removed_directory e;
}

module _ (f : FileSystem) (path : Text) where
  open f use {State, deletion, at, deletes, removes}

  seen : {A : Type 0} → A × State → A × Entry
  seen (a, s) = (a, at path s)
