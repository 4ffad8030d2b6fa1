-- ===== src/Windows/Directories.antt =====
-- `yo_dir_open` of src/win/impl.c with what it holds, and `yoi_win_fix_path`. A path is its units, of which none is NUL; what its
-- conversion, FindFirstFileW and malloc answer are arguments.
pub mod Patterns
mod Tests
use libyaooi.Prelude.{
  ℕ, zero, suc, ◌+◌, Bool, true, false, Option, none, some, List, [], ◌∷◌, ◌++◌, ◌==◌,
  if◌then◌else◌, length,
}
use libyaooi.Errno.{Code}
use libyaooi.Windows.Cmdline.{Text}
use libyaooi.Windows.Errno.{conv_errno}
use libyaooi.Windows.Spawn.{Attempt, given, denied, Handles, set_error, opening, malloc, free}

-- A slash and a backslash.
abbrev pub slash : ℕ
slash = 47

abbrev pub backslash : ℕ
backslash = 92

-- The first slash made a backslash, or none.
unfoldable pub replace_first : Text → Option Text
replace_first [] = none
replace_first (c ∷ cs) =
    let later = replace_first cs in
    if c == slash
    then some (backslash ∷ cs)
    else elim later [ none ↦ none | some rest ↦ some (c ∷ rest) ]

-- The loop, with a bound on its rounds; none where it is too small.
unfoldable pub fix_path : (fuel : ℕ) → Text → Option Text
fix_path zero path = none
fix_path (suc fuel) path = elim (replace_first path) [
  | none ↦ some path
  | some next ↦ fix_path fuel next
]

-- "\*"
abbrev pub star : Text
star = 92 ∷ 42 ∷ []

abbrev pub pattern_of : Text → Option Text
pattern_of wpattern = let path = wpattern ++ star in fix_path (length path + 1) path

-- The code, the find handle of the directory that is stored, and what is held; or the bound was too small.
pub data Opened : Type 0 where
  returns : Option Code → Option ℕ → Handles → Opened
  goes_on : Opened

abbrev pub on_first : (memory : Bool) → Attempt ℕ → Handles → Opened
on_first memory (denied e) l = returns (conv_errno e) none (set_error e l)
on_first false (given h) l = returns (some Code.enomem) none (opening h l)
on_first true (given h) l = returns (some Code.ok) (some h) (malloc (opening h l))

abbrev pub on_pattern : (memory : Bool) → (Text → Attempt ℕ) → Option Text → Handles → Opened
on_pattern memory find_first none l = goes_on
on_pattern memory find_first (some wpattern) l = on_first memory (find_first wpattern) (free l)

unfoldable pub dir_open :
    (memory : Bool) → (find_first : Text → Attempt ℕ) → (wpath : Attempt Text) → Handles → Opened
dir_open memory find_first (denied e) l = returns (conv_errno e) none (set_error e l)
dir_open memory find_first (given wpath) l =
    on_pattern memory find_first (pattern_of wpath) (malloc l)
