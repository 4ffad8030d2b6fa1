-- ===== src/Paths.antt =====
-- The paths of a user, `yo_getpath` of src/unix/impl.c. What malloc, getenv, getpwuid_r and getcwd answer are
-- arguments, each a function of what it is asked; realloc to fewer bytes succeeds.

pub mod Found
mod Tests
use libyaooi.Prelude.{
  ℕ, zero, suc, ◌+◌, ◌-◌, ◌*◌, ◌%◌, ◌^◌, Bool, true, false, Option, none, some, List, [], ◌∷◌, ◌++◌,
  if◌then◌else◌, length,
}
use libyaooi.Errno.{Code}
use libyaooi.Errno.Os.{Errno}
use libyaooi.Errno.Unix.{conv_errno}

abbrev pub Text : Type 0
Text = List ℕ

-- `yo_path_type_t`
pub data PathType : Type 0 where
  path_home path_config path_data path_cache path_runtime path_cwd : PathType

-- The variables of the environment that are read.
pub data Var : Type 0 where
  xdg_cache_home xdg_config_home xdg_data_home xdg_runtime_dir : Var

-- What a call with a buffer answers: the text that it stores, or the errno behind its failure.
pub data Try : Type 0 where
  fits : Text → Try
  lacks : Errno → Try

pub record System : Type 0 where
  pub memory : ℕ → Bool
  pub getenv : Var → Option Text
  pub passwd : ℕ → Try
  pub cwd : ℕ → Try

-- What a loop ends with; `runs` is a bound on its rounds that was too small.
pub data Grown : Type 0 where
  holds : Text → Grown
  broken : Errno → Grown
  no_memory : Grown
  runs : Grown

-- What the call returns, with the blocks that it leaves allocated, or a copy to NULL.
pub data Outcome : Type 0 where
  returns : Option Code → Option Text → ℕ → Outcome
  writes_null : Outcome
  goes_on : Outcome

abbrev pub is_erange : Errno → Bool
is_erange Errno.erange = true
is_erange _ = false

-- `buffn *= 2`, of a size_t of 64 bits.
abbrev pub doubled : ℕ → ℕ
doubled room = room * 2 % 2 ^ 64

-- One round of either loop; `more` is whether the new buffer is allocated, and `rest` is the rest of the loop.
abbrev pub behind : Try → (more : Bool) → (rest : Grown × ℕ) → (blocks : ℕ) → Grown × ℕ
behind (fits t) more rest blocks = (holds t, blocks)
behind (lacks e) more rest blocks =
    if is_erange e then (if more then rest else (no_memory, blocks - 1)) else (broken e, blocks - 1)

-- The loops of `_yoi_generic_getenvpath` and of YO_PATH_CWD, with a bound on their rounds.
unfoldable pub grow : (fuel : ℕ) → (ℕ → Bool) → (ℕ → Try) → (room blocks : ℕ) → Grown × ℕ
grow zero memory ask room blocks = (runs, blocks)
grow (suc fuel) memory ask room blocks =
    let rest = grow fuel memory ask (doubled room) (blocks - 1 + 1) in
    behind (ask room) (memory (doubled room)) rest blocks

-- The rounds that are enough, and PATH_MAX.
abbrev pub rounds : ℕ
rounds = 51

abbrev pub path_max : ℕ
path_max = 4096

abbrev pub grow_from_start : (ℕ → Bool) → (ℕ → Try) → Grown × ℕ
grow_from_start memory ask =
    if memory path_max then grow rounds memory ask path_max 1 else (no_memory, 0)

abbrev pub null : Errno → ℕ → Outcome
null e blocks = returns (conv_errno e) none blocks

-- `_yoi_generic_getenvpath` behind its loop, where the caller returns the code of errno for NULL.
abbrev pub home_suffixed : (ℕ → Bool) → Text → Grown × ℕ → Outcome
home_suffixed memory suffix (holds t, blocks) =
    if memory (length t + length suffix + 1)
    then returns (some Code.ok) (some (t ++ suffix)) (blocks + 1 - 1)
    else null Errno.enomem blocks
home_suffixed memory suffix (broken e, blocks) = null e blocks
home_suffixed memory suffix (no_memory, blocks) = null Errno.enomem blocks
home_suffixed memory suffix (runs, blocks) = goes_on

abbrev pub home_alone : (ℕ → Bool) → Grown × ℕ → Outcome
home_alone memory (holds t, blocks) =
    if memory (length t + 1) then returns (some Code.ok) (some t) (blocks + 1 - 1) else writes_null
home_alone memory (broken e, blocks) = null e blocks
home_alone memory (no_memory, blocks) = null Errno.enomem blocks
home_alone memory (runs, blocks) = goes_on

-- A copy of a text.
abbrev pub copy : (ℕ → Bool) → Text → Outcome
copy memory t =
    if memory (length t + 1) then returns (some Code.ok) (some t) 1 else null Errno.enomem 0

-- `_yoi_unix_getpath`
unfoldable pub unix_getpath : System → Option Text → Text → Outcome
unix_getpath s (some (c ∷ cs)) suffix = copy s.memory (c ∷ cs)
unix_getpath s (some []) suffix = home_suffixed s.memory suffix (grow_from_start s.memory s.passwd)
unix_getpath s none suffix = home_suffixed s.memory suffix (grow_from_start s.memory s.passwd)

abbrev pub tmp : Text
tmp = 47 ∷ 116 ∷ 109 ∷ 112 ∷ []

abbrev pub runtime_of : Option Text → Text
runtime_of (some (c ∷ cs)) = c ∷ cs
runtime_of (some []) = tmp
runtime_of none = tmp

-- YO_PATH_CWD behind its loop.
abbrev pub cwd_of : Grown × ℕ → Outcome
cwd_of (holds t, blocks) = returns (some Code.ok) (some t) blocks
cwd_of (broken e, blocks) = null e blocks
cwd_of (no_memory, blocks) = returns (some Code.enomem) none blocks
cwd_of (runs, blocks) = goes_on

-- The suffixes "/.cache", "/.config" and "/.local/share".
abbrev pub dot_cache : Text
dot_cache = 47 ∷ 46 ∷ 99 ∷ 97 ∷ 99 ∷ 104 ∷ 101 ∷ []

abbrev pub dot_config : Text
dot_config = 47 ∷ 46 ∷ 99 ∷ 111 ∷ 110 ∷ 102 ∷ 105 ∷ 103 ∷ []

abbrev pub dot_local_share : Text
dot_local_share = 47 ∷ 46 ∷ 108 ∷ 111 ∷ 99 ∷ 97 ∷ 108 ∷ 47 ∷ 115 ∷ 104 ∷ 97 ∷ 114 ∷ 101 ∷ []

unfoldable pub getpath : System → PathType → Outcome
getpath s path_home = home_alone s.memory (grow_from_start s.memory s.passwd)
getpath s path_cache = unix_getpath s (s.getenv xdg_cache_home) dot_cache
getpath s path_config = unix_getpath s (s.getenv xdg_config_home) dot_config
getpath s path_data = unix_getpath s (s.getenv xdg_data_home) dot_local_share
getpath s path_runtime = copy s.memory (runtime_of (s.getenv xdg_runtime_dir))
getpath s path_cwd = cwd_of (grow_from_start s.memory s.cwd)
