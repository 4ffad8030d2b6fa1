-- ===== src/Ansi/Open/Modes.antt =====
-- The modes of the ansi port against the flags of the unix port.
use libyaooi.Prelude.{
  ℕ, ◌+◌, ◌≡◌, refl, sym, ap, ◌∙◌, Bool, true, false, ◌||◌, Bool-cases, inl, inr, ◌⊎◌, Option, none,
  some, ◌==◌, ==→eq, arith, if◌then◌else◌,
}
use mathlib.Core.Path.{subst}
use libyaooi.Files.{conv_open_flags, access_of}
use libyaooi.Ansi.Open.{
  Mode, rb, rb_plus, ab, wb, wb_plus, Opened, at_path, stream, masked, mode_of, open_mode,
}

-- What the C standard says of a mode.
pub record Grants : Type 0 where
  pub reads : Bool
  pub writes : Bool
  pub appends : Bool
  pub truncates : Bool
  pub creates : Bool

abbrev grants : Bool → Bool → Bool → Bool → Bool → Grants
grants r w a t c = record { reads = r; writes = w; appends = a; truncates = t; creates = c }

abbrev pub granted : Mode → Grants
granted rb = grants true false false false false
granted rb_plus = grants true true false false false
granted ab = grants false true true false true
granted wb = grants false true false true true
granted wb_plus = grants true true false true true

-- The mode against what the unix port passes to open(2) for the flags.
abbrev pub Agrees : Mode → ℕ → Type 0
Agrees m flags =
    (access_of (granted m).reads (granted m).writes ≡ (conv_open_flags flags).access)
    × ((granted m).appends ≡ (conv_open_flags flags).o_append)
    × ((granted m).truncates ≡ (conv_open_flags flags).o_trunc)
    × ((granted m).creates ≡ ((conv_open_flags flags).o_creat || (conv_open_flags flags).o_trunc))

masked-cases :
    (flags : ℕ)
    → (flags ≡ masked flags)
      ⊎ (flags ≡ masked flags + 32)
      ⊎ (flags ≡ masked flags + 64)
      ⊎ (flags ≡ masked flags + 96)
masked-cases flags = ground arith

-- A fact about the flags that the switch sees, for the four flags that it may have been made from.
spread :
    (P : ℕ → Type 0) (k flags : ℕ)
    → masked flags ≡ k
    → P k
    → P (k + 32)
    → P (k + 64)
    → P (k + 96)
    → P flags
spread P k flags e p0 p1 p2 p3 = elim (masked-cases flags) [
  | inl h ↦ subst P (sym (h ∙ e)) p0
  | inr (inl h) ↦ subst P (sym (h ∙ ap (λ n. n + 32) e)) p1
  | inr (inr (inl h)) ↦ subst P (sym (h ∙ ap (λ n. n + 64) e)) p2
  | inr (inr (inr h)) ↦ subst P (sym (h ∙ ap (λ n. n + 96) e)) p3
]

AgreesOpened : ℕ → Option Opened → Type 0
AgreesOpened flags none = Unit
AgreesOpened flags (some at_path) = Unit
AgreesOpened flags (some (stream m)) = Agrees m flags

peel :
    (Q : Option Opened → Type 0) (a k : ℕ) (x y : Option Opened)
    → (a ≡ k → Q x)
    → Q y
    → Q (if a == k then x else y)
peel Q a k x y yes_case no_case = elim (Bool-cases (a == k)) [
  | inl e ↦ rw e (yes_case (==→eq a k e))
  | inr e ↦ rw e no_case
]

at_mode :
    (m : Mode) (k flags : ℕ)
    → Agrees m k
    → Agrees m (k + 32)
    → Agrees m (k + 64)
    → Agrees m (k + 96)
    → masked flags ≡ k
    → Agrees m flags
at_mode m k flags p0 p1 p2 p3 e = spread (Agrees m) k flags e p0 p1 p2 p3

mode_of-AgreesOpened : (flags : ℕ) → AgreesOpened flags (mode_of (masked flags))
unfolding mode_of AgreesOpened conv_open_flags
mode_of-AgreesOpened flags =
    let q = AgreesOpened flags in
    let f = masked flags in
    peel q f 128 _ _ (λ e. tt)
      (peel q f 1 _ _
        (at_mode rb 1 flags (refl, refl, refl, refl) (refl, refl, refl, refl)
          (refl, refl, refl, refl) (refl, refl, refl, refl))
        (peel q f 3 _ _
          (at_mode rb_plus 3 flags (refl, refl, refl, refl) (refl, refl, refl, refl)
            (refl, refl, refl, refl) (refl, refl, refl, refl))
          (peel q f 14 _ _
            (at_mode ab 14 flags (refl, refl, refl, refl) (refl, refl, refl, refl)
              (refl, refl, refl, refl) (refl, refl, refl, refl))
            (peel q f 12 _ _
              (at_mode ab 12 flags (refl, refl, refl, refl) (refl, refl, refl, refl)
                (refl, refl, refl, refl) (refl, refl, refl, refl))
              (peel q f 18 _ _
                (at_mode wb 18 flags (refl, refl, refl, refl) (refl, refl, refl, refl)
                  (refl, refl, refl, refl) (refl, refl, refl, refl))
                (peel q f 19 _ _
                  (at_mode wb_plus 19 flags (refl, refl, refl, refl) (refl, refl, refl, refl)
                    (refl, refl, refl, refl) (refl, refl, refl, refl))
                  tt))))))

-- Where `yo_file_open` of the ansi port opens a stream, its mode grants the access that the unix port asks for with the
-- same flags, appends and truncates exactly where that does, and creates a file where the flags ask for
-- it or for truncation.
pub open_mode-Agrees : (flags : ℕ) (m : Mode) → open_mode flags ≡ some (stream m) → Agrees m flags
unfolding open_mode AgreesOpened
open_mode-Agrees flags m e = subst (AgreesOpened flags) e (mode_of-AgreesOpened flags)
