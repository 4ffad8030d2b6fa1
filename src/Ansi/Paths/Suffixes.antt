-- ===== src/Ansi/Paths/Suffixes.antt =====
-- How the paths of src/ansi/impl.c differ from those of src/unix/impl.c.
use libyaooi.Prelude.{ℕ, ◌+◌, ◌≡◌, refl, true, Option, some, ◌∷◌, ◌++◌, length}
use libyaooi.Errno.{Code}
use libyaooi.Paths as Unix
use libyaooi.Paths.{Text, System, path_cache, xdg_cache_home, dot_cache}
use libyaooi.Ansi.Paths.{Var, getenvpath, getpath}
use libyaooi.Ansi.Paths as Ansi

-- Where the variable of the cache is set, the unix port gives its value, and the ansi port its value with a suffix.
cache_suffixed :
    (s : System) (getenv : Var → Option Text) (c : ℕ) (cs : Text)
    → ((n : ℕ) → s.memory n ≡ true)
    → s.getenv xdg_cache_home ≡ some (c ∷ cs)
    → getenv Ansi.xdg_cache_home ≡ some (c ∷ cs)
    → (Unix.getpath s path_cache ≡ Unix.returns (some Code.ok) (some (c ∷ cs)) 1)
      × (getpath s.memory getenv path_cache ≡ Ansi.returns Code.ok (some ((c ∷ cs) ++ dot_cache)))
unfolding getenvpath Unix.getpath Unix.unix_getpath
cache_suffixed s getenv c cs m u a = (rw (u, m (length (c ∷ cs) + 1)) refl, rw (a, m _) refl)
