-- ===== src/Ansi/Paths.antt =====
-- The paths of a user, `yo_getpath` of src/ansi/impl.c with `_yoi_ansi_getenvpath`. getenv, and whether there is memory for a
-- number of bytes, are arguments.
pub mod Suffixes
use libyaooi.Prelude.{
  ℕ, ◌+◌, Bool, true, false, Option, none, some, List, [], ◌∷◌, ◌++◌, if◌then◌else◌, length,
}
use libyaooi.Errno.{Code}
use libyaooi.Paths.{
  Text, PathType, path_home, path_config, path_data, path_cache, path_runtime, path_cwd, tmp,
  dot_cache, dot_config, dot_local_share,
}

pub data Var : Type 0 where
  home xdg_cache_home xdg_config_home xdg_data_home pwd : Var

-- A code and the text that is stored, in a block; or strcpy to NULL.
pub data Outcome : Type 0 where
  returns : Code → Option Text → Outcome
  writes_null : Outcome

abbrev pub value_or : Text → Option Text → Text
value_or fallback none = fallback
value_or fallback (some t) = t

abbrev pub copied : (memory : ℕ → Bool) → Text → Option Text → Outcome
copied memory t none = if memory (length t + 1) then returns Code.ok (some t) else writes_null
copied memory t (some suffix) =
    if memory (length t + length suffix + 1)
    then returns Code.ok (some (t ++ suffix))
    else returns Code.enomem none

unfoldable pub getenvpath :
    (memory : ℕ → Bool)
    → (getenv : Var → Option Text) → Var
    → (fallback : Text) → (suffix : Option Text) → Outcome
getenvpath memory getenv name fallback suffix =
    copied memory (value_or fallback (getenv name)) suffix

-- "."
abbrev pub dot : Text
dot = 46 ∷ []

-- The variable, the fallback and the suffix of each path.
abbrev pub getpath : (memory : ℕ → Bool) → (getenv : Var → Option Text) → PathType → Outcome
getpath memory getenv path_home = getenvpath memory getenv home dot none
getpath memory getenv path_cache = getenvpath memory getenv xdg_cache_home dot (some dot_cache)
getpath memory getenv path_config = getenvpath memory getenv xdg_config_home dot (some dot_config)
getpath memory getenv path_data = getenvpath memory getenv xdg_data_home dot (some dot_local_share)
getpath memory getenv path_runtime = getenvpath memory getenv xdg_data_home tmp none
getpath memory getenv path_cwd = getenvpath memory getenv pwd dot none
