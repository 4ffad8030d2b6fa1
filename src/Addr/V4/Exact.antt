-- ===== src/Addr/V4/Exact.antt =====
-- `parse_ipv4` accepts exactly the dotted quads.
use libyaooi.Prelude.{
  ℕ, zero, suc, ◌+◌, ◌-◌, ◌*◌, ◌≤◌, ◌<◌, ◌≡◌, ◌≢◌, ◌↔◌, inl, inr, refl, ap, true, false, some, List,
  [], ◌∷◌, ◌++◌, All, arith, length, ltb, ltb→le, Bool-cases, Option-cases, ◌⊎◌, Option-cases, ◌⊎◌,
  Option-cases, ◌⊎◌,
}
use mathlib.Core.List.{append-nil, append_assoc}
use libyaooi.Addr.Chars.{Bytes, NoNul, peek, isdigit, accepted}
use libyaooi.Addr.V4.{push_digit, number, separator, octet, octets, parse_ipv4}
use libyaooi.Addr.V4.Grammar.{
  IsDigit, decimal, Octet, Dotted, last, more, isdigit_bounds, decimal_grows, Octet-peek,
  Dotted-peek,
}

-- What `number` has read.
record Read (part : ℕ) (s : Bytes) (v : ℕ) (rest : Bytes) : Type 0 where
  taken : Bytes
  split : s ≡ taken ++ rest
  digits : All IsDigit taken
  spells : decimal taken part ≡ v
  stops : isdigit (peek rest) ≡ false

push_digit_lem :
    (part c : ℕ) → part ≤ 100 → isdigit c ≡ true → push_digit part c ≡ part * 10 + (c - b'0')
push_digit_lem part c h d = omega (arith, isdigit_bounds c d)

zero_no_digit : isdigit 0 ≡ false
unfolding isdigit
zero_no_digit = refl

Read-cons :
    (c : ℕ) (s : Bytes) (part : ℕ) {v : ℕ} {rest : Bytes}
    → isdigit c ≡ true
    → part ≤ 100
    → Read (push_digit part c) s v rest
    → Read part (c ∷ s) v rest
Read-cons c s part d fits r = record {
  taken = c ∷ r.taken;
  split = ap (λ t. c ∷ t) r.split;
  digits = (d, r.digits);
  spells = rw (← push_digit_lem part c fits d) r.spells;
  stops = r.stops;
}

number-Read :
    (s : Bytes) (part : ℕ) {v : ℕ} {rest : Bytes}
    → number part s ≡ some (v, rest)
    → Read part s v rest
unfolding number
number-Read [] part h = record {
  taken = [];
  split = ground arith;
  digits = tt;
  spells = ground arith;
  stops = ground (arith, zero_no_digit);
}
number-Read (c ∷ s) part {v} {rest} h = elim (Bool-cases (isdigit c)) [
  | inl d ↦ elim (Bool-cases (ltb 100 part)) [
    | inl over ↦ absurd (ground arith)
    | inr fits ↦
        Read-cons c s part d (ltb→le _ _ fits) (number-Read s (push_digit part c) (ground arith))
  ]
  | inr nd ↦ record {
    taken = [];
    split = ground arith;
    digits = tt;
    spells = ground arith;
    stops = ground arith;
  }
]

-- Digits whose number is at most 255 are all read.
number-append :
    (ds rest : Bytes) (part : ℕ)
    → All IsDigit ds
    → decimal ds part ≤ 255
    → isdigit (peek rest) ≡ false
    → number part (ds ++ rest) ≡ some (decimal ds part, rest)
unfolding number
number-append [] [] part a small stops = refl
number-append [] (c ∷ rest) part a small stops = rw stops
number-append (d ∷ ds) rest part a small stops =
    let up : push_digit part d ≡ part * 10 + (d - b'0') =
      push_digit_lem part d (omega (arith, decimal_grows (part * 10 + (d - b'0')) ds)) a.0 in
    let fits : ltb 100 part ≡ false = ground (arith, decimal_grows (part * 10 + (d - b'0')) ds) in
    rw (a.0, fits, up) (number-append ds rest (part * 10 + (d - b'0')) a.1 small stops)

-- What one round has read: an octet, and the dot behind it unless it is the last.
data Round (i : ℕ) (s : Bytes) (v : ℕ) (rest : Bytes) : Type 0 where
  final :
      {o : Bytes}
      → i ≡ 3
      → Octet o v
      → s ≡ o ++ rest
      → isdigit (peek rest) ≡ false
      → Round i s v rest
  inner : {o : Bytes} → i ≢ 3 → Octet o v → s ≡ o ++ b'.' ∷ rest → Round i s v rest
  stuck : i ≢ 3 → isdigit (peek rest) ≡ false → Round i s v rest

separator-cases :
    (i : ℕ) (it : Bytes) {rest : Bytes}
    → separator i it ≡ some rest
    → ((i ≡ 3) × (it ≡ rest)) ⊎ ((i ≢ 3) × (it ≡ b'.' ∷ rest)) ⊎ ((i ≢ 3) × (it ≡ rest))
unfolding separator
separator-cases i [] h = ground arith
separator-cases i (c ∷ it) h = ground arith

octet-parts :
    (i : ℕ) (s : Bytes) {v : ℕ} {rest : Bytes}
    → octet i s ≡ some (v, rest)
    → (it : Bytes) × (isdigit (peek s) ≡ true)
      × (number 0 s ≡ some (v, it))
      × (v ≤ 255)
      × (separator i it ≡ some rest)
unfolding octet
octet-parts i s h = elim (Option-cases (number 0 s)) [
  | inl e ↦ absurd (ground arith)
  | inr ((v', it), e) ↦ elim (Option-cases (separator i it)) [
    | inl e' ↦ absurd (ground arith)
    | inr (rest', e') ↦ (it, ground arith, ground arith, ground arith, ground arith)
  ]
]

Read-Octet :
    (s : Bytes) {v : ℕ} {it : Bytes}
    → isdigit (peek s) ≡ true
    → v ≤ 255
    → (r : Read 0 s v it) → Octet r.taken v
Read-Octet s d small r = record {
  some_digit = λ e. absurd (ground (arith, r.split, r.stops, e));
  digits = r.digits;
  spells = r.spells;
  small = small;
}

octet-Round :
    (i : ℕ) (s : Bytes) {v : ℕ} {rest : Bytes} → octet i s ≡ some (v, rest) → Round i s v rest
octet-Round i s h =
    let (it, d, e, small, sep) = octet-parts i s h in
    let r = number-Read s 0 e in
    let o = Read-Octet s d small r in
    elim (separator-cases i it sep) [
      | inl (e3, same) ↦ final e3 o (rw same at r.split) (rw same at r.stops)
      | inr (inl (ne, dot)) ↦ inner ne o (rw dot at r.split)
      | inr (inr (ne, same)) ↦ stuck ne (rw same at r.stops)
    ]

octets-parts :
    (k i : ℕ) (s : Bytes) {vs : List ℕ} {rest : Bytes}
    → octets (suc k) i s ≡ some (vs, rest)
    → (v : ℕ) × (it : Bytes) × (ws : List ℕ) × (octet i s ≡ some (v, it))
      × (octets k (i + 1) it ≡ some (ws, rest))
      × (vs ≡ v ∷ ws)
unfolding octets
octets-parts k i s h = elim (Option-cases (octet i s)) [
  | inl e ↦ absurd (ground arith)
  | inr ((v, it), e) ↦ elim (Option-cases (octets k (i + 1) it)) [
    | inl e' ↦ absurd (ground arith)
    | inr ((ws, rest'), e') ↦ (v, it, ws, ground arith, ground arith, ground arith)
  ]
]

octets-zero :
    (i : ℕ) (s : Bytes) {vs : List ℕ} {rest : Bytes}
    → octets 0 i s ≡ some (vs, rest)
    → (vs ≡ []) × (s ≡ rest)
unfolding octets
octets-zero i s h = ground arith

octets-stuck :
    (k i : ℕ) (s : Bytes) {vs : List ℕ} {rest : Bytes}
    → isdigit (peek s) ≡ false
    → octets (suc k) i s ≢ some (vs, rest)
unfolding octets octet
octets-stuck k i s nd h = ground arith

Quad : ℕ → Bytes → List ℕ → Bytes → Type 0
Quad k s vs rest = (quad : Bytes) × (s ≡ quad ++ rest) × Dotted quad vs × (length vs ≡ k)

octets-Dotted :
    (k i : ℕ) (s : Bytes) {vs : List ℕ} {rest : Bytes}
    → i + suc k ≡ 4
    → octets (suc k) i s ≡ some (vs, rest)
    → Quad (suc k) s vs rest
unfolding Quad
octets-Dotted zero i s {vs} {rest} n h =
    let (v, it, ws, e, e', cons) = octets-parts 0 i s h in
    let (nil, same) = octets-zero (i + 1) it e' in
    let all : vs ≡ v ∷ [] = rw nil at cons in
    elim (octet-Round i s e) [
      | final {o} e3 oct split nd ↦ (o, rw same at split, rw all (last oct), rw all)
      | inner ne oct split ↦ absurd (omega arith)
      | stuck ne nd ↦ absurd (omega arith)
    ]
octets-Dotted (suc k) i s {vs} {rest} n h =
    let (v, it, ws, e, e', cons) = octets-parts (suc k) i s h in
    elim (octet-Round i s e) [
      | final e3 oct split nd ↦ absurd (omega arith)
      | inner {o} ne oct split ↦
          let (quad, split', dotted, len) = octets-Dotted k (i + 1) it (omega arith) e' in
          (
            o ++ b'.' ∷ quad,
            rw (split, split', append_assoc),
            rw cons (more oct dotted),
            rw cons (ap suc len),
          )
      | stuck ne nd ↦ absurd (octets-stuck k (i + 1) it nd e')
    ]

Octet-octet :
    (o : Bytes) (i : ℕ) {v : ℕ} (it rest : Bytes)
    → Octet o v
    → isdigit (peek it) ≡ false
    → separator i it ≡ some rest
    → octet i (o ++ it) ≡ some (v, rest)
unfolding octet
Octet-octet o i {v} it rest oct nd sep =
    let read : number 0 (o ++ it) ≡ some (v, it) = ground (
      arith,
      number-append o it 0 oct.digits (omega (arith, oct.spells, oct.small)) nd,
      oct.spells,
    ) in
    let fits : ltb 255 v ≡ false = ground (arith, oct.small) in
    rw (Octet-peek o it oct, read, fits, sep)

separator-dot :
    (i : ℕ) (t : Bytes) → i < 3 → isdigit (peek t) ≡ true → separator i (b'.' ∷ t) ≡ some t
unfolding separator
separator-dot i t h d = ground (arith, isdigit_bounds (peek t))

separator_end : separator 3 [] ≡ some []
unfolding separator
separator_end = refl

dot_no_digit : isdigit b'.' ≡ false
unfolding isdigit
dot_no_digit = refl

Dotted-octets :
    {s : Bytes} {vs : List ℕ} (k i : ℕ)
    → Dotted s vs
    → length vs ≡ suc k
    → i + suc k ≡ 4
    → octets (suc k) i s ≡ some (vs, [])
unfolding octets
Dotted-octets zero i (last {s} o) len n =
    let i3 : i ≡ 3 = omega arith in
    let sep : separator i [] ≡ some [] = rw i3 separator_end in
    rw (octets, rw append-nil at (Octet-octet s i [] [] o zero_no_digit sep))
Dotted-octets (suc k) i (last {s} o) len n = absurd (omega arith)
Dotted-octets zero i (more {s} {t} o (last o')) len n = absurd (omega arith)
Dotted-octets zero i (more {s} {t} o (more o' d)) len n = absurd (omega arith)
Dotted-octets (suc k) i (more {s} {t} o d) len n = rw (
  octets,
  Octet-octet s i (b'.' ∷ t) t o dot_no_digit (separator-dot i t (omega arith) (Dotted-peek d)),
  Dotted-octets k (i + 1) d (omega arith) (omega arith),
)

NoNul-append : (s t : Bytes) → NoNul (s ++ t) → NoNul t
NoNul-append [] t h = h
NoNul-append (c ∷ s) t h = NoNul-append s t h.1

NoNul-end : (s : Bytes) → NoNul s → peek s ≡ 0 → s ≡ []
NoNul-end [] h e = refl
NoNul-end (c ∷ s) h e = absurd (h.0 e)

-- `yo_parse_ipv4` succeeds with the bytes `vs` exactly when the string is four octets, each of one or
-- more decimal digits with a decimal of at most 255, joined by dots, and `vs` are their values.
pub parse_ipv4-Dotted :
    (s : Bytes) (vs : List ℕ)
    → NoNul s
    → (parse_ipv4 s ≡ accepted vs) ↔ (Dotted s vs × (length vs ≡ 4))
unfolding parse_ipv4 Quad
parse_ipv4-Dotted s vs h = (sound, λ p. rw (parse_ipv4, Dotted-octets 3 0 p.0 p.1 refl))
  where
    sound : parse_ipv4 s ≡ accepted vs → Dotted s vs × (length vs ≡ 4)
    sound e = elim (Option-cases (octets 4 0 s)) [
      | inl bad ↦ absurd (ground arith)
      | inr ((ws, rest), got) ↦
          let (quad, split, dotted, len) = octets-Dotted 3 0 s refl got in
          let ending : peek rest ≡ 0 = ground arith in
          let same : vs ≡ ws = ground arith in
          let nil : rest ≡ [] = NoNul-end rest (NoNul-append quad rest (rw split at h)) ending in
          let whole : s ≡ quad = rw (nil, append-nil) at split in
          (rw (whole, same) dotted, rw same len)
    ]
