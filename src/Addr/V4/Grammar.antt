-- ===== src/Addr/V4/Grammar.antt =====
-- What a dotted quad is, independently of the parser: digit strings with values, joined by dots.
use libyaooi.Prelude.{ℕ, ◌+◌, ◌-◌, ◌*◌, ◌≤◌, ◌≡◌, ◌≢◌, refl, true, List, [], ◌∷◌, ◌++◌, All, arith}
use mathlib.Core.List.{append-nil}
use libyaooi.Addr.Chars.{Bytes, peek, isdigit}

abbrev pub IsDigit : ℕ → Type 0
IsDigit c = isdigit c ≡ true

-- The number that decimal digits spell behind `n`, with no bound.
abbrev pub decimal : Bytes → ℕ → ℕ
decimal [] n = n
decimal (c ∷ s) n = decimal s (n * 10 + (c - b'0'))

-- One or more digits that spell `v`, at most 255. Leading zeros are allowed.
pub record Octet (s : Bytes) (v : ℕ) : Type 0 where
  pub some_digit : s ≢ []
  pub digits : All IsDigit s
  pub spells : decimal s 0 ≡ v
  pub small : v ≤ 255

-- Octets joined by dots.
pub data Dotted : Bytes → List ℕ → Type 0 where
  last : {s : Bytes} {v : ℕ} → Octet s v → Dotted s (v ∷ [])
  more :
      {s t : Bytes} {v : ℕ} {vs : List ℕ}
      → Octet s v
      → Dotted t vs
      → Dotted (s ++ b'.' ∷ t) (v ∷ vs)

pub isdigit_bounds : (c : ℕ) → isdigit c ≡ true → (b'0' ≤ c) × (c ≤ b'9')
unfolding isdigit
isdigit_bounds c h = ground arith

pub decimal_grows : (n : ℕ) (s : Bytes) → n ≤ decimal s n
decimal_grows n [] = omega arith
decimal_grows n (c ∷ s) = let more = decimal_grows (n * 10 + (c - b'0')) s in omega (arith, more)

pub Octet-peek : (s : Bytes) {v : ℕ} (r : Bytes) → Octet s v → isdigit (peek (s ++ r)) ≡ true
Octet-peek [] r o = absurd (o.some_digit refl)
Octet-peek (c ∷ s) r o = o.digits.0

-- A dotted string begins with a digit.
pub Dotted-peek : {s : Bytes} {vs : List ℕ} → Dotted s vs → isdigit (peek s) ≡ true
Dotted-peek (last {s} o) = rw append-nil at (Octet-peek s [] o)
Dotted-peek (more {s} {t} o d) = Octet-peek s (b'.' ∷ t) o
