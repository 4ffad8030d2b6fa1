-- ===== src/Windows/Files/Opened.antt =====
-- The flags that CreateFileW is given against those of open(2).
use libyaooi.Prelude.{◌≡◌, refl, Bool, true, false}
use libyaooi.Files.{Access}
use libyaooi.Files.Flags
use libyaooi.Windows.Files.{CreateMode, CreateFlags, Reply, on_file, on_path, file_open}

-- What is done with a file that is there, and with one that is not, by the documentation of CreateFileW.
abbrev pub truncates : CreateMode → Bool
truncates CreateMode.open_existing = false
truncates CreateMode.open_always = false
truncates CreateMode.truncate_existing = true
truncates CreateMode.create_always = true

abbrev pub creates : CreateMode → Bool
creates CreateMode.open_existing = false
creates CreateMode.open_always = true
creates CreateMode.truncate_existing = false
creates CreateMode.create_always = true

abbrev modes :
    (create trunc : Bool)
    → (creates (libyaooi.Windows.Files.create_mode_of create trunc) ≡ create)
      × (truncates (libyaooi.Windows.Files.create_mode_of create trunc) ≡ trunc)
modes false false = (refl, refl)
modes true false = (refl, refl)
modes false true = (refl, refl)
modes true true = (refl, refl)

-- What CreateFileW is asked for against what open(2) is asked for, row by row.
abbrev pub SameAccess : (reads writes : Bool) → Access → Type 0
SameAccess true true a = a ≡ Access.rdwr
SameAccess true false a = a ≡ Access.rdonly
SameAccess false true a = a ≡ Access.wronly
SameAccess false false a = a ≡ Access.rdonly
