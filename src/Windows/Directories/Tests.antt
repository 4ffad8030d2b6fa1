-- ===== src/Windows/Directories/Tests.antt =====
-- A path of two parts, with a slash between them.
use libyaooi.Prelude.{ℕ, ◌≡◌, refl, true, some, [], ◌∷◌, ◌++◌}
use libyaooi.Windows.Cmdline.{Text}
use libyaooi.Windows.Errors.{WinError}
use libyaooi.Windows.Spawn.{Attempt, given, Handles}
use libyaooi.Windows.Directories.{replace_first, fix_path, star, dir_open}
use libyaooi.Windows.Directories.Patterns.{backslashed, Answers, dir_open-Answers}

abbrev path : Text
path = 97 ∷ 47 ∷ 98 ∷ []

fixed : fix_path 3 path ≡ some (97 ∷ 92 ∷ 98 ∷ [])
unfolding fix_path replace_first
fixed = refl

abbrev none_held : Handles
none_held = record { opened = []; closed = []; blocks = 4; error = WinError.error_file_not_found }

abbrev finds : Text → Attempt ℕ
finds pattern = given 9

dir_open-Answers_example :
    Answers true none_held
      (finds (backslashed path ++ star))
      (dir_open true finds (given path) none_held)
dir_open-Answers_example = dir_open-Answers true finds path none_held
