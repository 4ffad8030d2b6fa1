-- ===== src/Windows/Vars.antt =====
-- The variables of the environment, `yo_env_get` and `yo_env_set` of src/win/impl.c, and the blocks that they take. What malloc
-- answers and the functions of the system, over any state of the environment, are arguments.
pub mod Trip
mod Tests
use libyaooi.Prelude.{
  ℕ, ◌+◌, ◌-◌, ◌*◌, ◌<◌, ◌≡◌, ◌≢◌, Bool, true, false, Option, none, some, List, [], ◌∷◌, ◌==◌,
  if◌then◌else◌, length,
}
use libyaooi.Errno.{Code}
use libyaooi.Windows.Cmdline.{Text}
use libyaooi.Windows.Errno.{conv_errno}
use libyaooi.Windows.Errors.{WinError}
use libyaooi.Windows.Conversions.{Attempt, given, denied, Conversions, conv_utf8, conv_utf16}

-- GetEnvironmentVariableW without a buffer: how many units there must be room for; 0 with ERROR_ENVVAR_NOT_FOUND; or 0 with
-- another error.
pub data Query : Type 0 where
  units : ℕ → Query
  not_found : Query
  unread : WinError → Query

-- With a buffer: what it returns, what it stores, and the last error behind it.
pub record Read : Type 0 where
  pub count : ℕ
  pub stored : Text
  pub error : WinError

pub record Variables (E : Type 0) : Type 0 where
  pub query : Text → E → Query
  pub read : Text → ℕ → E → Read
  pub write : Text → Text → E → Attempt Unit × E

-- The code, what is stored through `pres`, if anything, where none is NULL, and the blocks that are allocated.
pub record Got : Type 0 where
  pub code : Option Code
  pub pres : Option (Option Text)
  pub blocks : ℕ

abbrev pub failing : WinError → ℕ → Got
failing e blocks = record { code = conv_errno e; pres = none; blocks = blocks }

-- Behind the conversion of the result.
abbrev pub on_narrow : Attempt Text → ℕ → Got
on_narrow (denied e) blocks = failing e (blocks - 1)
on_narrow (given text) blocks = record {
  code = some Code.ok;
  pres = some (some text);
  blocks = blocks + 1 - 1;
}

-- Behind the call with a buffer, where a count of 0 is a failure.
abbrev pub on_read : Conversions → Read → ℕ → Got
on_read t r blocks =
    if r.count == 0
    then failing r.error (blocks - 1 - 1)
    else on_narrow (conv_utf16 t r.stored) (blocks - 1)

module _ {E : Type 0} where
  abbrev pub on_query : Conversions → Variables E → Text → E → Query → ℕ → Got
  on_query t v wname env not_found blocks = record {
    code = some Code.ok;
    pres = some none;
    blocks = blocks - 1;
  }
  on_query t v wname env (unread e) blocks = failing e (blocks - 1)
  on_query t v wname env (units n) blocks =
      if t.memory (2 * n)
      then on_read t (v.read wname n env) (blocks + 1)
      else record { code = some Code.enomem; pres = none; blocks = blocks - 1 }

  abbrev pub on_name : Conversions → Variables E → Attempt Text → E → ℕ → Got
  on_name t v (denied e) env blocks = failing e blocks
  on_name t v (given wname) env blocks = on_query t v wname env (v.query wname env) (blocks + 1)

  unfoldable pub env_get : Conversions → Variables E → Text → E → (blocks : ℕ) → Got
  env_get t v name env blocks = on_name t v (conv_utf8 t 0 name) env blocks

  -- The code, the environment, and the blocks that are allocated.
  abbrev pub on_write : Attempt Unit × E → ℕ → Option Code × E × ℕ
  on_write (denied e, env) blocks = (conv_errno e, env, blocks - 1 - 1)
  on_write (given _, env) blocks = (some Code.ok, env, blocks - 1 - 1)

  abbrev pub on_value : Variables E → Text → Attempt Text → E → ℕ → Option Code × E × ℕ
  on_value v wname (denied e) env blocks = (conv_errno e, env, blocks - 1)
  on_value v wname (given wval) env blocks = on_write (v.write wname wval env) (blocks + 1)

  abbrev pub on_set_name : Variables E → Attempt Text → Attempt Text → E → ℕ → Option Code × E × ℕ
  on_set_name v (denied e) wval env blocks = (conv_errno e, env, blocks)
  on_set_name v (given wname) wval env blocks = on_value v wname wval env (blocks + 1)

  unfoldable pub env_set :
      Conversions → Variables E → (name val : Text) → E → (blocks : ℕ) → Option Code × E × ℕ
  env_set t v name val env blocks =
      on_set_name v (conv_utf8 t 0 name) (conv_utf8 t 0 val) env blocks

-- What the manual of Windows says of its functions: `lookup` is what the environment says of a variable.
pub record Documented {E : Type 0} (v : Variables E) (lookup : Text → E → Option Text)
    : Type 0 where
  pub query_unset : (w : Text) (env : E) → lookup w env ≡ none → v.query w env ≡ not_found
  pub query_set :
      (w : Text) (env : E) (t : Text) → lookup w env ≡ some t → v.query w env ≡ units (length t + 1)
  pub read_count :
      (w : Text) (env : E) (t : Text)
      → lookup w env ≡ some t
      → (v.read w (length t + 1) env).count ≡ length t
  pub read_stored :
      (w : Text) (env : E) (t : Text)
      → lookup w env ≡ some t
      → (v.read w (length t + 1) env).stored ≡ t
  pub written :
      (w t : Text) (env : E)
      → (v.write w t env).0 ≡ given tt
      → lookup w (v.write w t env).1 ≡ some t
