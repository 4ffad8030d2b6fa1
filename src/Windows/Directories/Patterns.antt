-- ===== src/Windows/Directories/Patterns.antt =====
-- What `yo_dir_open` of src/win/impl.c looks for.
use libyaooi.Prelude.{
  ℕ, zero, suc, ◌+◌, ◌≤◌, ◌<◌, ◌≡◌, refl, sym, ap, ◌∙◌, Bool, true, false, Bool-cases, inl, inr,
  Option, none, some, [], ◌∷◌, ◌++◌, ◌==◌, if◌then◌else◌, arith, length,
}
use libyaooi.Errno.{Code}
use libyaooi.Windows.Cmdline.{Text}
use libyaooi.Windows.Errno.{conv_errno}
use libyaooi.Windows.Spawn.{Attempt, given, denied, Handles, set_error, opening, malloc, free}
use libyaooi.Windows.Directories.{
  slash, backslash, replace_first, fix_path, star, pattern_of, returns, Opened, on_pattern,
  dir_open,
}

-- Each slash made a backslash, and how many there are.
abbrev pub backslashed : Text → Text
backslashed [] = []
backslashed (c ∷ cs) = (if c == slash then backslash else c) ∷ backslashed cs

abbrev slashes : Text → ℕ
slashes [] = 0
slashes (c ∷ cs) = (if c == slash then 1 else 0) + slashes cs

slashes-length : (p : Text) → slashes p ≤ length p
slashes-length [] = omega arith
slashes-length (c ∷ cs) = elim (Bool-cases (c == slash)) [
  | inl e ↦ rw e (omega (arith, slashes-length cs))
  | inr e ↦ rw e (omega (arith, slashes-length cs))
]

-- One round of the loop.
Replaced : Text → Option Text → Type 0
Replaced p none = backslashed p ≡ p
Replaced p (some q) = (backslashed q ≡ backslashed p) × (slashes p ≡ slashes q + 1)

Replaced-behind :
    (c : ℕ) (cs : Text) (o : Option Text)
    → (c == slash) ≡ false
    → Replaced cs o
    → Replaced (c ∷ cs) (elim o [ none ↦ none | some rest ↦ some (c ∷ rest) ])
unfolding Replaced
Replaced-behind c cs none e h = rw e (ap (λ t. c ∷ t) h)
Replaced-behind c cs (some q) e (h, k) = (rw e (ap (λ t. c ∷ t) h), rw e (omega (arith, k)))

Replaced-replace_first : (p : Text) → Replaced p (replace_first p)
unfolding Replaced replace_first
Replaced-replace_first [] = refl
Replaced-replace_first (c ∷ cs) = elim (Bool-cases (c == slash)) [
  | inl e ↦ rw e (rw e refl, rw e (omega arith))
  | inr e ↦ rw e (Replaced-behind c cs (replace_first cs) e (Replaced-replace_first cs))
]

rounds :
    (fuel : ℕ) (p : Text) (o : Option Text)
    → ((q : Text) → slashes q < fuel → fix_path fuel q ≡ some (backslashed q))
    → slashes p < suc fuel
    → Replaced p o
    → elim o [ none ↦ some p | some next ↦ fix_path fuel next ] ≡ some (backslashed p)
unfolding Replaced
rounds fuel p none later h k = ap some (sym k)
rounds fuel p (some q) later h (k, n) = later q (omega (arith, h, n)) ∙ ap some k

fix_path_lem : (fuel : ℕ) (p : Text) → slashes p < fuel → fix_path fuel p ≡ some (backslashed p)
unfolding fix_path
fix_path_lem zero p h = absurd (omega (arith, h))
fix_path_lem (suc fuel) p h =
    rounds fuel p (replace_first p) (λ q k. fix_path_lem fuel q k) h (Replaced-replace_first p)

backslashed-append : (p q : Text) → backslashed (p ++ q) ≡ backslashed p ++ backslashed q
backslashed-append [] q = refl
backslashed-append (c ∷ p) q =
    ap (λ t. (if c == slash then backslash else c) ∷ t) (backslashed-append p q)

pattern_of_lem : (p : Text) → pattern_of p ≡ some (backslashed p ++ star)
pattern_of_lem p =
    fix_path_lem (length (p ++ star) + 1) (p ++ star) (omega (arith, slashes-length (p ++ star)))
    ∙ ap some (backslashed-append p star)

-- What is stored and held for the answer of FindFirstFileW: a find handle and a block; or a code and nothing. Without memory the
-- find handle stays open.
abbrev pub Answers : (memory : Bool) → Handles → Attempt ℕ → Opened → Type 0
Answers memory l (denied e) r = r ≡ returns (conv_errno e) none (set_error e l)
Answers true l (given h) r =
    r ≡ returns (some Code.ok) (some h) (record l { opened = h ∷ l.opened; blocks = l.blocks + 1 })
Answers false l (given h) r =
    r ≡ returns (some Code.enomem) none (record l { opened = h ∷ l.opened })

free-malloc : (l : Handles) → free (malloc l) ≡ l
free-malloc l = ap (λ b. record l { blocks = b }) (omega arith)

Answers-on_pattern :
    (memory : Bool) (find_first : Text → Attempt ℕ) (p : Text) (l : Handles) (a : Attempt ℕ)
    → find_first p ≡ a
    → Answers memory l a (on_pattern memory find_first (some p) (malloc l))
Answers-on_pattern memory find_first p l (denied e) h =
    rw h (ap (λ q. returns (conv_errno e) none (set_error e q)) (free-malloc l))
Answers-on_pattern true find_first p l (given n) h =
    rw h (ap (λ q. returns (some Code.ok) (some n) (malloc (opening n q))) (free-malloc l))
Answers-on_pattern false find_first p l (given n) h =
    rw h (ap (λ q. returns (some Code.enomem) none (opening n q)) (free-malloc l))

-- `yo_dir_open` of the Windows port ends, for a path of any length: where the path is converted, it asks FindFirstFileW for
-- the path with each slash made a backslash and \* behind it; it holds a find handle and a block more where that succeeds and
-- there is memory, and nothing more where it fails; without memory it leaves the find handle open.
pub dir_open-Answers :
    (memory : Bool) (find_first : Text → Attempt ℕ) (wpath : Text) (l : Handles)
    → Answers memory l
        (find_first (backslashed wpath ++ star))
        (dir_open memory find_first (given wpath) l)
unfolding dir_open
dir_open-Answers memory find_first wpath l =
    rw (pattern_of_lem wpath)
      (Answers-on_pattern memory find_first (backslashed wpath ++ star) l _ refl)
