-- ===== src/Paths/Found.antt =====
-- What `yo_getpath` of src/unix/impl.c finds.
use libyaooi.Prelude.{
  ℕ, zero, suc, ◌+◌, ◌*◌, ◌^◌, ◌≤◌, ◌<◌, ◌≡◌, refl, sym, ap, Bool, true, false, Bool-cases, ◌⊎◌,
  inl, inr, Option, none, some, [], ◌∷◌, ◌++◌, if◌then◌else◌, length, ltb, arith,
}
use mathlib.Core.Path.{subst}
use libyaooi.Errno.{Code}
use libyaooi.Errno.Os.{Errno}
use libyaooi.Errno.Unix.{conv_errno}
use libyaooi.Paths.{
  Text, PathType, path_home, path_cache, path_config, path_data, path_runtime, path_cwd,
  xdg_cache_home, xdg_config_home, xdg_data_home, xdg_runtime_dir, tmp, System, Try, fits, lacks,
  Grown, holds, no_memory, Outcome, returns, writes_null, doubled, grow, rounds, path_max,
  grow_from_start, home_suffixed, home_alone, copy, unix_getpath, runtime_of, cwd_of, dot_cache,
  dot_config, dot_local_share, getpath,
}

-- malloc gives no more than PTRDIFF_MAX bytes.
abbrev pub Bounded : (ℕ → Bool) → Type 0
Bounded memory = (n : ℕ) → memory n ≡ true → n < 2 ^ 63

-- A call that stores a text with its NUL, and fails with ERANGE where they do not fit.
abbrev pub Stores : (ℕ → Try) → Text → Type 0
Stores ask t = (room : ℕ) → ask room ≡ (if ltb (length t) room then fits t else lacks Errno.erange)

-- The strings of the user's entry fit in the first buffer.
abbrev pub FitsFirst : (ℕ → Try) → Text → Type 0
FitsFirst ask t = ask path_max ≡ fits t

abbrev last_room : ℕ → ℕ → ℕ
last_room zero room = room
last_room (suc fuel) room = last_room fuel (room * 2)

module _ (memory : ℕ → Bool) (ask : ℕ → Try) (t : Text) where
  -- A block too large for malloc, up to `bound` bytes.
  Denied : ℕ → Type 0
  Denied bound = (n : ℕ) × (memory n ≡ false) × (n ≤ bound)

  -- The loop has the text in its one block, or it has none.
  Ended : Grown × ℕ → Type 0
  Ended r = (r ≡ (holds t, 1)) ⊎ (Denied (2 * length t + path_max) × (r ≡ (no_memory, 0)))

  grow-Ended :
      (fuel room : ℕ)
      → Bounded memory
      → Stores ask t
      → room < 2 ^ 63
      → 2 ^ 63 ≤ last_room fuel room
      → Ended (grow fuel memory ask room 1)
  unfolding grow Ended Denied
  grow-Ended zero room h s small large = absurd (omega (arith, small, large))
  grow-Ended (suc fuel) room h s small large =
      let twice : doubled room ≡ room * 2 = omega (arith, small) in
      elim (Bool-cases (ltb (length t) room)) [
        | inl e ↦ inl (rw (s room) (rw e refl))
        | inr e ↦ elim (Bool-cases (memory (doubled room))) [
          | inl m ↦ rw (s room) (
              rw e (
                rw m (
                  grow-Ended fuel (doubled room) h s (h (doubled room) m)
                    (subst (λ r. 2 ^ 63 ≤ last_room fuel r) (sym twice) large))))
          | inr m ↦
              let short : room ≤ length t = ground arith in
              inr ((doubled room, m, omega (arith, twice, short)), rw (s room) (rw e (rw m refl)))
        ]
      ]

  start-Ended : Bounded memory → Stores ask t → Ended (grow_from_start memory ask)
  unfolding Ended Denied
  start-Ended h s = elim (Bool-cases (memory path_max)) [
    | inl m ↦ rw m (grow-Ended rounds path_max h s (h path_max m) (omega arith))
    | inr m ↦ inr ((path_max, m, omega arith), rw m refl)
  ]

  first-Ended : FitsFirst ask t → Ended (grow_from_start memory ask)
  unfolding Ended Denied grow
  first-Ended h = elim (Bool-cases (memory path_max)) [
    | inl m ↦ inl (rw m (rw h refl))
    | inr m ↦ inr ((path_max, m, omega arith), rw m refl)
  ]

-- A variable that is set and not empty, or another text.
abbrev pub set_or : Option Text → Text → Text
set_or (some (c ∷ cs)) other = c ∷ cs
set_or (some []) other = other
set_or none other = other

-- The path of a type, for a user's home and a working directory.
abbrev pub path_of : System → (home cwd : Text) → PathType → Text
path_of s home cwd path_home = home
path_of s home cwd path_cache = set_or (s.getenv xdg_cache_home) (home ++ dot_cache)
path_of s home cwd path_config = set_or (s.getenv xdg_config_home) (home ++ dot_config)
path_of s home cwd path_data = set_or (s.getenv xdg_data_home) (home ++ dot_local_share)
path_of s home cwd path_runtime = set_or (s.getenv xdg_runtime_dir) tmp
path_of s home cwd path_cwd = cwd

-- A block of at most `bound` bytes that malloc does not give.
abbrev pub Refused : (ℕ → Bool) → ℕ → Type 0
Refused memory bound = (n : ℕ) × (memory n ≡ false) × (n ≤ bound)

-- The text in one block; or YO_ENOMEM and at most one block, where one is refused.
abbrev pub Gives : (ℕ → Bool) → (bound : ℕ) → Text → Outcome → Type 0
Gives memory bound t o =
    (o ≡ returns (some Code.ok) (some t) 1)
    ⊎ (Refused memory bound × (b : ℕ) × (b ≤ 1) × (o ≡ returns (some Code.enomem) none b))

module _ (memory : ℕ → Bool) (bound : ℕ) where
  copy-Gives : (t : Text) → length t + 1 ≤ bound → Gives memory bound t (copy memory t)
  unfolding conv_errno
  copy-Gives t l = elim (Bool-cases (memory (length t + 1))) [
    | inl m ↦ inl (rw m refl)
    | inr m ↦ inr ((length t + 1, m, l), 0, omega arith, rw m refl)
  ]

  home_suffixed-Gives :
      (ask : ℕ → Try) (home suffix : Text) (r : Grown × ℕ)
      → 2 * length home + path_max ≤ bound
      → length home + length suffix + 1 ≤ bound
      → Ended memory ask home r
      → Gives memory bound (home ++ suffix) (home_suffixed memory suffix r)
  unfolding Ended Denied conv_errno
  home_suffixed-Gives ask home suffix r k l (inl e) =
      elim (Bool-cases (memory (length home + length suffix + 1))) [
        | inl m ↦ inl (rw e (rw m refl))
        | inr m ↦ inr ((length home + length suffix + 1, m, l), 1, omega arith, rw e (rw m refl))
      ]
  home_suffixed-Gives ask home suffix r k l (inr ((n, m, le), e)) =
      inr ((n, m, omega (arith, le, k)), 0, omega arith, rw e refl)

  unix_getpath-Gives :
      (s : System) (env : Option Text) (home suffix : Text)
      → 2 * length home + path_max ≤ bound
      → length home + length suffix + 1 ≤ bound
      → length (set_or env []) + 1 ≤ bound
      → Bounded memory
      → FitsFirst s.passwd home
      → Gives memory bound
          (set_or env (home ++ suffix))
          (unix_getpath (record s { memory = memory }) env suffix)
  unfolding unix_getpath
  unix_getpath-Gives s (some (c ∷ cs)) home suffix k l v h p = copy-Gives (c ∷ cs) v
  unix_getpath-Gives s (some []) home suffix k l v h p =
      home_suffixed-Gives s.passwd home suffix _ k l (first-Ended memory s.passwd home p)
  unix_getpath-Gives s none home suffix k l v h p =
      home_suffixed-Gives s.passwd home suffix _ k l (first-Ended memory s.passwd home p)

  cwd_of-Gives :
      (ask : ℕ → Try) (t : Text) (r : Grown × ℕ)
      → 2 * length t + path_max ≤ bound
      → Ended memory ask t r
      → Gives memory bound t (cwd_of r)
  unfolding Ended Denied conv_errno
  cwd_of-Gives ask t r k (inl e) = inl (rw e refl)
  cwd_of-Gives ask t r k (inr ((n, m, le), e)) =
      inr ((n, m, omega (arith, le, k)), 0, omega arith, rw e refl)

  -- A home without a suffix is copied without a test.
  home_alone-Gives :
      (ask : ℕ → Try) (home : Text) (r : Grown × ℕ)
      → 2 * length home + path_max ≤ bound
      → Ended memory ask home r
      → Gives memory bound home (home_alone memory r)
        ⊎ ((memory (length home + 1) ≡ false) × (home_alone memory r ≡ writes_null))
  unfolding Ended Denied conv_errno
  home_alone-Gives ask home r k (inl e) = elim (Bool-cases (memory (length home + 1))) [
    | inl m ↦ inl (inl (rw e (rw m refl)))
    | inr m ↦ inr (m, rw e (rw m refl))
  ]
  home_alone-Gives ask home r k (inr ((n, m, le), e)) =
      inl (inr ((n, m, omega (arith, le, k)), 0, omega arith, rw e refl))

-- The bytes that are enough for what is copied.
abbrev pub room_for : System → (home cwd : Text) → PathType → ℕ
room_for s home cwd type =
    2 * length home + 2 * length cwd + length (path_of s home cwd type) + path_max

length-set_or :
    (env : Option Text) (other : Text) → length (set_or env []) ≤ length (set_or env other)
length-set_or none other = omega arith
length-set_or (some []) other = omega arith
length-set_or (some (c ∷ cs)) other = omega arith

runtime_of-set_or : (env : Option Text) → runtime_of env ≡ set_or env tmp
runtime_of-set_or none = refl
runtime_of-set_or (some []) = refl
runtime_of-set_or (some (c ∷ cs)) = refl

module _ (s : System) (home cwd : Text) (h : Bounded s.memory) (p : FitsFirst s.passwd home) where
  variable-Gives :
      (type : PathType) (env : Option Text) (suffix : Text)
      → path_of s home cwd type ≡ set_or env (home ++ suffix)
      → length suffix ≤ 13
      → Gives s.memory
          (room_for s home cwd type)
          (path_of s home cwd type)
          (unix_getpath s env suffix)
  variable-Gives type env suffix e l =
      subst (λ t. Gives s.memory (room_for s home cwd type) t (unix_getpath s env suffix)) (sym e)
        (unix_getpath-Gives s.memory (room_for s home cwd type) s env home suffix (omega arith)
          (omega (arith, l))
          (omega (arith, length-set_or env (home ++ suffix), ap (λ t. length t) e)) h p)

-- Where the strings of the user's entry fit in the 4096 bytes that getpwuid_r is given first, getcwd stores a text that fits
-- in its buffer with its NUL and fails with ERANGE otherwise, and malloc gives no more than PTRDIFF_MAX bytes, `yo_getpath` ends: it returns YO_OK and the path of its type, in
-- one block; or, where malloc refuses a block of a bounded size, YO_ENOMEM with at most one block left, or, for
-- YO_PATH_HOME, it copies to NULL.
pub getpath-Gives :
    (s : System) (home cwd : Text) (type : PathType)
    → Bounded s.memory
    → FitsFirst s.passwd home
    → Stores s.cwd cwd
    → Gives s.memory (room_for s home cwd type) (path_of s home cwd type) (getpath s type)
      ⊎ ((type ≡ path_home) × (s.memory (length home + 1) ≡ false) × (getpath s type ≡ writes_null))
unfolding getpath
getpath-Gives s home cwd path_home h p q =
    elim (home_alone-Gives s.memory (room_for s home cwd path_home) s.passwd home _ (omega arith)
      (first-Ended s.memory s.passwd home p)) [ inl g ↦ inl g | inr (m, e) ↦ inr (refl, m, e) ]
getpath-Gives s home cwd path_cache h p q =
    inl (variable-Gives s home cwd h p path_cache _ dot_cache refl (omega arith))
getpath-Gives s home cwd path_config h p q =
    inl (variable-Gives s home cwd h p path_config _ dot_config refl (omega arith))
getpath-Gives s home cwd path_data h p q =
    inl (variable-Gives s home cwd h p path_data _ dot_local_share refl (omega arith))
getpath-Gives s home cwd path_runtime h p q = inl (
    subst
      (λ t.
        Gives s.memory (room_for s home cwd path_runtime) (path_of s home cwd path_runtime)
          (copy s.memory t))
      (sym (runtime_of-set_or (s.getenv xdg_runtime_dir)))
      (copy-Gives s.memory (room_for s home cwd path_runtime) (path_of s home cwd path_runtime)
        (omega arith)))
getpath-Gives s home cwd path_cwd h p q =
    inl (cwd_of-Gives s.memory _ s.cwd cwd _ (omega arith) (start-Ended s.memory s.cwd cwd h q))
