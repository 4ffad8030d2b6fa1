-- ===== src/Windows/Env/Read.antt =====
-- The block of an environment, read back.
use mathlib.Core.List.{append_assoc, append-nil}
use libyaooi.Prelude.{
  length-append, ℕ, ◌+◌, ◌-◌, ◌≤◌, ◌≡◌, ◌≢◌, refl, ap, ◌∙◌, Option, some, List, [], ◌∷◌, ◌++◌, ◌==◌,
  arith, length, All, ltb, if◌then◌else◌, false,
}
use libyaooi.Errno.{Code}
use libyaooi.Windows.Cmdline.{Text}
use libyaooi.Windows.Conversions.{Conversions, TakesNoFlag, conv_utf16-TakesNoFlag}
use libyaooi.Windows.Errno.{conv_errno}
use libyaooi.Windows.Env.{
  env_room, written, envp_to_envblock, before_nul, fails, pair_of, next_at, enviter_next,
}

abbrev pub NotNul : ℕ → Type 0
NotNul c = c ≢ 0

-- What the conversion makes of an entry; it is not empty, has no NUL, and becomes no longer.
abbrev pub Entry : (Text → Option Text) → (Text → Text) → Text → Type 0
Entry conv wide env =
    (conv env ≡ some (wide env))
    × (length (wide env) ≤ length env)
    × (1 ≤ length (wide env))
    × All NotNul (wide env)

-- The manual of CreateProcessW: a block is texts that end with NUL, and ends with a NUL behind them. `text` is what was read
-- of the text at hand.
abbrev pub between : Text → List Text → List Text
between [] more = []
between (c ∷ cs) more = (c ∷ cs) ∷ more

unfoldable pub block_texts : (text block : Text) → List Text
block_texts text [] = []
block_texts text (c ∷ cs) =
    let more = block_texts [] cs in
    let longer = block_texts (text ++ (c ∷ [])) cs in if c == 0 then between text more else longer

abbrev pub wide_all : (Text → Text) → List Text → List Text
wide_all wide [] = []
wide_all wide (env ∷ envs) = wide env ∷ wide_all wide envs

-- The entries in UTF-16, each with its NUL.
abbrev joined : (Text → Text) → List Text → Text
joined wide [] = []
joined wide (env ∷ envs) = wide env ++ (0 ∷ joined wide envs)

block_texts-append :
    (text w rest : Text)
    → All NotNul w
    → block_texts text (w ++ (0 ∷ rest)) ≡ between (text ++ w) (block_texts [] rest)
unfolding block_texts
block_texts-append text [] rest h = rw append-nil refl
block_texts-append text (c ∷ w) rest (n, h) =
    let e : (c == 0) ≡ false = ground arith in
    rw e (
      block_texts-append (text ++ (c ∷ [])) w rest h
      ∙ ap (λ t. between t (block_texts [] rest)) (append_assoc text (c ∷ []) w))

between-text : (w : Text) (more : List Text) → 1 ≤ length w → between w more ≡ w ∷ more
between-text [] more n = absurd (omega (arith, n))
between-text (c ∷ w) more n = refl

module _ (conv : Text → Option Text) (wide : Text → Text) where
  written-joined :
      (room : ℕ) (envs : List Text)
      → All (Entry conv wide) envs
      → env_room envs ≤ room
      → written conv room envs ≡ some (joined wide envs)
  unfolding written env_room
  written-joined room [] h r = refl
  written-joined room (env ∷ envs) ((c, l, n, z), h) r =
      let fits : ltb room (length (wide env) + 1) ≡ false = ground arith in
      let rest = written-joined (room - (length (wide env) + 1)) envs h (omega arith) in
      rw (c, written) (rw fits (rw rest refl))

  block_texts-joined :
      (envs : List Text)
      → All (Entry conv wide) envs
      → block_texts [] (joined wide envs ++ (0 ∷ [])) ≡ wide_all wide envs
  unfolding block_texts
  block_texts-joined [] h = refl
  block_texts-joined (env ∷ envs) ((c, l, n, z), hs) =
      ap (λ t. block_texts [] t) (append_assoc (wide env) (0 ∷ joined wide envs) (0 ∷ []))
      ∙ block_texts-append [] (wide env) (joined wide envs ++ (0 ∷ [])) z
      ∙ between-text (wide env) _ n
      ∙ ap (λ r. wide env ∷ r) (block_texts-joined envs hs)

  length-joined :
      (envs : List Text) → All (Entry conv wide) envs → length (joined wide envs) ≤ env_room envs
  unfolding env_room
  length-joined [] h = omega arith
  length-joined (env ∷ envs) ((c, l, n, z), h) =
      omega (arith, length-append (wide env) (0 ∷ joined wide envs), length-joined envs h)

-- A block that is written for entries that can be converted, none of which is empty or gets a NUL or grows in units, fits in
-- the room that is allocated, and read as CreateProcessW documents it, it holds the converted entries, in their order.
pub block_texts-envp_to_envblock :
    (conv : Text → Option Text) (wide : Text → Text) (envs : List Text)
    → All (Entry conv wide) envs
    → (block : Text) × (envp_to_envblock conv envs ≡ some block)
      × (length block ≤ env_room envs + 1)
      × (block_texts [] block ≡ wide_all wide envs)
unfolding envp_to_envblock
block_texts-envp_to_envblock conv wide envs h = (
  joined wide envs ++ (0 ∷ []),
  rw (written-joined conv wide (env_room envs) envs h (omega arith), envp_to_envblock) refl,
  omega (arith, length-append (joined wide envs) (0 ∷ []), length-joined conv wide envs h),
  block_texts-joined conv wide envs h,
)

-- Where WideCharToMultiByte does as it is documented, `yo_enviter_next` gives no entry of a block that has one.
enviter_next-TakesNoFlag :
    (c : Conversions) (x : ℕ) (w curr : Text)
    → TakesNoFlag c
    → before_nul curr ≡ x ∷ w
    → enviter_next c curr ≡ (fails (some Code.eunknown), curr)
unfolding enviter_next next_at conv_errno
enviter_next-TakesNoFlag c x w curr h e =
    ap (λ t. next_at c t curr) e ∙ ap (λ r. pair_of r curr) (conv_utf16-TakesNoFlag c h (x ∷ w))
