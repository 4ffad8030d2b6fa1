-- ===== src/Windows/Folders.antt =====
-- The paths of a user, `yo_getpath` of src/win/impl.c with `_yoi_win_getpath`. What malloc and the functions of the system
-- answer are arguments; a text is its units, without the NUL behind it.
pub mod Found
use libyaooi.Prelude.{
  ℕ, ◌+◌, ◌-◌, ◌*◌, ◌<◌, ◌≡◌, refl, Bool, true, false, Option, none, some, List, [], ◌∷◌,
  if◌then◌else◌, length, ltb, arith,
}
use libyaooi.Errno.{Code}
use libyaooi.Paths.{PathType, path_home, path_config, path_data, path_cache, path_runtime, path_cwd}
use libyaooi.Windows.Cmdline.{Text}
use libyaooi.Windows.Errno.{conv_errno}
use libyaooi.Windows.Errors.{WinError}
use libyaooi.Windows.Conversions.{Attempt, given, denied, Conversions, conv_utf16}

pub data Csidl : Type 0 where
  csidl_profile csidl_local_appdata csidl_appdata : Csidl

-- `old_error` is what GetLastError gives where malloc fails. GetCurrentDirectoryW is told how many units
-- there is room for, and stores a directory that they are enough for.
pub record System : Type 0 where
  pub texts : Conversions
  pub old_error : WinError
  pub folder : Csidl → Attempt Text
  pub cwd : (room : ℕ) → Attempt Text

abbrev pub max_path : ℕ
max_path = 260

-- `sizeof *buff`
abbrev pub unit_size : ℕ
unit_size = 2

-- What `_yoi_win_getpath` returns, NULL with the last error, and the blocks that it leaves.
pub record Folder : Type 0 where
  pub path : Attempt Text
  pub blocks : ℕ

-- `wcscpy` of the suffix over the buffer.
abbrev pub copied : Option Text → Text → Text
copied none buff = buff
copied (some suffix) buff = suffix

abbrev pub suffix_length : Option Text → ℕ
suffix_length none = 0
suffix_length (some suffix) = length suffix

abbrev pub on_narrow : Attempt Text → Folder
on_narrow (denied e) = record { path = denied e; blocks = 0 }
on_narrow (given t) = record { path = given t; blocks = 1 }

abbrev pub on_folder : System → Option Text → Attempt Text → Folder
on_folder s suffix (denied e) = record { path = denied e; blocks = 1 }
on_folder s suffix (given buff) = on_narrow (conv_utf16 s.texts (copied suffix buff))

unfoldable pub win_getpath : System → Csidl → Option Text → Folder
win_getpath s id suffix =
    if s.texts.memory (unit_size * (max_path + suffix_length suffix + 1))
    then on_folder s suffix (s.folder id)
    else record { path = denied s.old_error; blocks = 0 }

-- The code, the path that is stored, and the blocks that are left; or the buffer was too short for the directory.
pub data Outcome : Type 0 where
  returns : Option Code → Option Text → ℕ → Outcome
  overruns : Outcome

abbrev pub on_path : Attempt Text → ℕ → Outcome
on_path (denied e) blocks = returns (conv_errno e) none blocks
on_path (given t) blocks = returns (some Code.ok) (some t) blocks

abbrev pub folder_path : Folder → Outcome
folder_path f = on_path f.path f.blocks

-- Behind GetCurrentDirectoryW, which stores the text and a NUL.
abbrev pub on_cwd : System → Attempt Text → Outcome
on_cwd s (denied e) = returns (conv_errno e) none 1
on_cwd s (given t) =
    if ltb (length t) (max_path + 1)
    then folder_path (on_narrow (conv_utf16 s.texts t))
    else overruns

-- "\Temp"
abbrev pub temp : Text
temp = 92 ∷ 84 ∷ 101 ∷ 109 ∷ 112 ∷ []

unfoldable pub getpath : System → PathType → Outcome
getpath s path_home = folder_path (win_getpath s csidl_profile none)
getpath s path_runtime = folder_path (win_getpath s csidl_local_appdata (some temp))
getpath s path_cache = folder_path (win_getpath s csidl_local_appdata (some temp))
getpath s path_config = folder_path (win_getpath s csidl_appdata none)
getpath s path_data = folder_path (win_getpath s csidl_local_appdata none)
getpath s path_cwd =
    if s.texts.memory (unit_size * (max_path + 1))
    then on_cwd s (s.cwd (unit_size * (max_path + 1)))
    else returns (some Code.enomem) none 0
