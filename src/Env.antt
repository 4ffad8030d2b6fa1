-- ===== src/Env.antt =====
-- The variables of the environment, `yo_env_get`, `yo_env_set` and the iterator of src/unix/impl.c and of src/ansi/impl.c. The
-- functions of the system, over any state of the environment, and whether there is memory for a number of bytes, are arguments.
use libyaooi.Prelude.{ℕ, ◌+◌, Bool, true, Option, none, some, List, [], ◌∷◌, if◌then◌else◌, length}
use libyaooi.Errno.{Code}
use libyaooi.Errno.Os.{Errno}
use libyaooi.Errno.Unix.{conv_errno}
use libyaooi.Paths.{Text}

-- setenv and unsetenv answer with the errno of a failure, or none.
pub record Environment (E : Type 0) : Type 0 where
  pub getenv : Text → E → Option Text
  pub setenv : (name val : Text) → (overwrite : Bool) → E → Option Errno × E
  pub unsetenv : (name : Text) → E → Option Errno × E

-- The code, what is stored through `pres`, if anything, where none is NULL, and the blocks that are taken.
pub record Got : Type 0 where
  pub code : Option Code
  pub pres : Option (Option Text)
  pub taken : ℕ

-- Behind getenv.
abbrev pub on_value : (memory : ℕ → Bool) → Option Text → Got
on_value memory none = record { code = some Code.ok; pres = some none; taken = 0 }
on_value memory (some val) =
    if memory (length val + 1)
    then record { code = some Code.ok; pres = some (some val); taken = 1 }
    else record { code = some Code.enomem; pres = none; taken = 0 }

-- Any failure of the ansi port is YO_ENOMEM.
abbrev pub no_memory : Errno → Option Code
no_memory e = some Code.enomem

module _ {E : Type 0} where
  unfoldable pub env_get : Environment E → (memory : ℕ → Bool) → Text → E → Got
  env_get v memory name env = on_value memory (v.getenv name env)

  abbrev pub on_change : (conv : Errno → Option Code) → Option Errno × E → Option Code × E
  on_change conv (none, env) = (some Code.ok, env)
  on_change conv (some e, env) = (conv e, env)

  -- No value unsets the variable.
  abbrev pub change : Environment E → Text → Option Text → E → Option Errno × E
  change v name none env = v.unsetenv name env
  change v name (some val) env = v.setenv name val true env

  unfoldable pub env_set : Environment E → Text → Option Text → E → Option Code × E
  env_set v name val env = on_change conv_errno (change v name val env)

  unfoldable pub ansi_env_set : Environment E → Text → Option Text → E → Option Code × E
  ansi_env_set v name val env = on_change no_memory (change v name val env)

-- `struct yo_enviter`: the strings of `environ` from a place on, which end with NULL.
abbrev pub Enviter : Type 0
Enviter = List Text

unfoldable pub enviter_next : Enviter → Option Text × Enviter
enviter_next [] = (none, [])
enviter_next (pair ∷ rest) = (some pair, rest)
