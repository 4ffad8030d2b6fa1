-- ===== src/Addr/V6/Hex.antt =====
-- The hexadecimal groups of an IPv6 address: what they spell, and how `xdigits` reads them.
use Prim.Native.Nat.{bit_or}
use native.Mathlib.Nat.{pow-suc}
use libyaooi.Prelude.{
  ℕ, zero, suc, ◌+◌, ◌-◌, ◌*◌, ◌^◌, ◌%◌, ◌≤◌, ◌<◌, ◌≡◌, ◌≢◌, refl, Bool, true, false, ◌&&◌, [], ◌∷◌,
  ◌++◌, All, arith, length, ltb, ◌==◌, if◌then◌else◌, ==→eq, Bool-cases, inl, inr, ap,
}
use libyaooi.Addr.Chars.{Bytes, peek, isxdigit}
use libyaooi.Addr.V6.{push_xdigit, xdigits}

abbrev pub IsHex : ℕ → Type 0
IsHex c = isxdigit c ≡ true

-- The value of a hexadecimal digit.
abbrev pub hex_value : ℕ → ℕ
hex_value c = if ltb c b'A' then c - b'0' else if ltb c b'a' then c - b'A' + 10 else c - b'a' + 10

-- The number that hexadecimal digits spell behind `n`.
abbrev pub hexadecimal : Bytes → ℕ → ℕ
hexadecimal [] n = n
hexadecimal (c ∷ s) n = hexadecimal s (n * 16 + hex_value c)

-- One to four hexadecimal digits that spell `w`.
pub record Group (s : Bytes) (w : ℕ) : Type 0 where
  pub some_digit : s ≢ []
  pub digits : All IsHex s
  pub short : length s ≤ 4
  pub spells : hexadecimal s 0 ≡ w

-- `p` at every number below the bound, by evaluation.
holds_below : (ℕ → Bool) → ℕ → Bool
holds_below p zero = true
holds_below p (suc bound) = holds_below p bound && p bound

holds_at : (p : ℕ → Bool) (bound x : ℕ) → x < bound → holds_below p bound ≡ true → p x ≡ true
unfolding holds_below
holds_at p zero x small h = absurd (omega arith)
holds_at p (suc bound) x small h = elim (Bool-cases (x == bound)) [
  | inl top ↦ ground (arith, ap p (==→eq x bound top))
  | inr below ↦ ground (arith, holds_at p bound x)
]

or_table : holds_below (λ w. holds_below (λ d. bit_or (w * 16) d == w * 16 + d) 16) 4096 ≡ true
unfolding holds_below
or_table = refl

-- `|=` of a digit behind a shift by four bits is an addition.
bit_or-shift : (w d : ℕ) → w < 4096 → d < 16 → bit_or (w * 16) d ≡ w * 16 + d
bit_or-shift w d hw hd = ==→eq _ _ (holds_at _ 16 d hd (holds_at _ 4096 w hw or_table))

push_xdigit_lem : (w c : ℕ) → w < 4096 → IsHex c → push_xdigit w c ≡ w * 16 + hex_value c
unfolding push_xdigit isxdigit
push_xdigit_lem w c hw h =
    let e : w * 16 % 2 ^ 16 ≡ w * 16 = omega arith in
    rw e (
      ground (
        arith,
        bit_or-shift w (c - b'0'),
        bit_or-shift w (c - b'a' + 10),
        bit_or-shift w (c - b'A' + 10),
      ))

hex_value-lt : (c : ℕ) → IsHex c → hex_value c < 16
unfolding isxdigit
hex_value-lt c h = ground arith

pow_pos : (n : ℕ) → 0 < 16 ^ n
pow_pos zero = omega arith
pow_pos (suc n) = omega (arith, pow-suc 16 n, pow_pos n)

room_now : (w p : ℕ) → 0 < p → (w + 1) * (p * 16) ≤ 65536 → w < 4096
room_now w p h b = grind arith

room_next : (w d p : ℕ) → d < 16 → (w + 1) * (p * 16) ≤ 65536 → (w * 16 + d + 1) * p ≤ 65536
room_next w d p h b = grind arith

xdigits-append :
    (n w : ℕ) (s r : Bytes)
    → length s ≤ n
    → (w + 1) * 16 ^ n ≤ 65536
    → All IsHex s
    → isxdigit (peek r) ≡ false
    → xdigits n w (s ++ r) ≡ (hexadecimal s w, r)
unfolding xdigits
xdigits-append zero w [] r l b a stops = refl
xdigits-append (suc n) w [] [] l b a stops = refl
xdigits-append (suc n) w [] (c ∷ r) l b a stops = rw stops
xdigits-append zero w (c ∷ s) r l b a stops = absurd (omega arith)
xdigits-append (suc n) w (c ∷ s) r l b a stops =
    let b' : (w + 1) * (16 ^ n * 16) ≤ 65536 = rw pow-suc at b in
    let e = push_xdigit_lem w c (room_now w (16 ^ n) (pow_pos n) b') a.0 in
    rw (a.0, e)
      (xdigits-append n (w * 16 + hex_value c) s r (omega arith)
        (room_next w (hex_value c) (16 ^ n) (hex_value-lt c a.0) b') a.1 stops)

-- `xdigits` reads a group that no further digit follows.
pub xdigits-Group :
    (s r : Bytes) {w : ℕ} → Group s w → isxdigit (peek r) ≡ false → xdigits 4 0 (s ++ r) ≡ (w, r)
xdigits-Group s r g stops =
    rw (xdigits-append 4 0 s r g.short (omega arith) g.digits stops, g.spells)

pub Group-peek : (s r : Bytes) {w : ℕ} → Group s w → isxdigit (peek (s ++ r)) ≡ true
Group-peek [] r g = absurd (g.some_digit refl)
Group-peek (c ∷ s) r g = g.digits.0

pub nul_no_digit : isxdigit 0 ≡ false
unfolding isxdigit
nul_no_digit = refl

pub colon_no_digit : isxdigit b':' ≡ false
unfolding isxdigit
colon_no_digit = refl
