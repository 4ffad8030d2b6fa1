-- ===== src/Windows/Folders/Found.antt =====
-- What `yo_getpath` of src/win/impl.c gives where there is memory: no path.
use libyaooi.Prelude.{
  ℕ, ◌≤◌, ◌<◌, ◌≡◌, refl, ◌⊎◌, inl, inr, Bool-cases, true, none, some, length, ltb, ltb→lt, ltb→le,
  arith,
}
use libyaooi.Errno.{Code}
use libyaooi.Paths.{path_home, path_cache, path_cwd}
use libyaooi.Windows.Cmdline.{Text}
use libyaooi.Windows.Conversions.{given, TakesNoFlag}
use libyaooi.Windows.Errno.{conv_errno}
use libyaooi.Windows.Folders.{
  System, csidl_profile, csidl_local_appdata, Outcome, returns, overruns, temp, win_getpath,
  getpath,
}

-- The result of a conversion that fails.
abbrev lost : Outcome
lost = returns (some Code.eunknown) none 0

-- The path of each kind, where WideCharToMultiByte does as it is documented.
module _ (s : System) (memory : (n : ℕ) → s.texts.memory n ≡ true)
    (flagless : TakesNoFlag s.texts) where
  home_path : (t : Text) → s.folder csidl_profile ≡ given t → getpath s path_home ≡ lost
  unfolding getpath win_getpath conv_errno
  home_path t f = rw (memory _, f, flagless t) refl

  cache_path : (t : Text) → s.folder csidl_local_appdata ≡ given t → getpath s path_cache ≡ lost
  unfolding getpath win_getpath conv_errno
  cache_path t f = rw (memory _, f, flagless temp) refl

  -- A directory of more than 260 units, which GetCurrentDirectoryW is told that there is room for, is written behind the buffer.
  cwd_path :
      (t : Text)
      → s.cwd 522 ≡ given t
      → ((length t ≤ 260) × (getpath s path_cwd ≡ lost))
        ⊎ ((260 < length t) × (getpath s path_cwd ≡ overruns))
  unfolding getpath conv_errno
  cwd_path t f = elim (Bool-cases (ltb (length t) 261)) [
    | inl e ↦ inl (omega (arith, ltb→lt _ _ e), rw (memory 522, f, e, flagless t) refl)
    | inr e ↦ inr (omega (arith, ltb→le _ _ e), rw (memory 522, f, e) refl)
  ]
