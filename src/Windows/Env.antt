-- ===== src/Windows/Env.antt =====
-- The environment of a process in src/win/impl.c: the block that `_yoi_win_envp_to_envblock` writes, and
-- `yo_enviter_next`, which reads such a block. `conv` is MultiByteToWideChar, where none is a text that has no
-- UTF-16 form.
pub mod Read
mod Tests
use libyaooi.Prelude.{
  ℕ, suc, ◌+◌, ◌-◌, Option, none, some, List, [], ◌∷◌, ◌++◌, ◌==◌, ltb, if◌then◌else◌, length,
}
use libyaooi.Errno.{Code}
use libyaooi.Windows.Conversions.{Attempt, given, denied, Conversions, conv_utf16}
use libyaooi.Windows.Errno.{conv_errno}
use libyaooi.Windows.Cmdline.{Text}

unfoldable pub env_room : List Text → ℕ
env_room [] = 0
env_room (env ∷ envs) = length env + 1 + env_room envs

-- The second loop, with the units that the buffer still has room for: the function of the system writes the
-- text and its NUL, and fails where they do not fit.
unfoldable pub written : (Text → Option Text) → ℕ → List Text → Option Text
written conv room [] = some []
written conv room (env ∷ envs) = elim (conv env) [
  | none ↦ none
  | some wide ↦
      let rest = written conv (room - (length wide + 1)) envs in
      if ltb room (length wide + 1)
      then none
      else elim rest [ none ↦ none | some units ↦ some (wide ++ (0 ∷ units)) ]
]

unfoldable pub envp_to_envblock : (Text → Option Text) → List Text → Option Text
envp_to_envblock conv envs = elim (written conv (env_room envs) envs) [
  | none ↦ none
  | some units ↦ some (units ++ (0 ∷ []))
]

-- The units before the first NUL, which `wcslen` counts, and those behind it.
unfoldable pub before_nul : Text → Text
before_nul [] = []
before_nul (c ∷ cs) = if c == 0 then [] else c ∷ before_nul cs

unfoldable pub behind_nul : Text → Text
behind_nul [] = []
behind_nul (c ∷ cs) = let later = behind_nul cs in if c == 0 then cs else later

-- What `yo_enviter_next` gives.
pub data Next : Type 0 where
  pair : Text → Next
  at_end : Next
  fails : Option Code → Next

-- Behind `yoi_win_conv_utf16`.
abbrev pub pair_of : Attempt Text → Text → Next × Text
pair_of (denied e) curr = (fails (conv_errno e), curr)
pair_of (given t) curr = (pair t, behind_nul curr)

unfoldable pub next_at : Conversions → Text → Text → Next × Text
next_at c [] curr = (at_end, curr)
next_at c (x ∷ xs) curr = pair_of (conv_utf16 c (x ∷ xs)) curr

-- `yo_enviter_next`, whose state is `curr`.
unfoldable pub enviter_next : Conversions → Text → Next × Text
enviter_next c curr = next_at c (before_nul curr) curr
