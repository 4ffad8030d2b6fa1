-- ===== src/Addr/Laws.antt =====
-- `yo_addrparse` and `yo_addrcmp` as a whole.
use libyaooi.Prelude.{ℕ, ◌≡◌, ◌↔◌, Bool, true, List, [], ◌∷◌, length, arith}
use libyaooi.Addr.Chars.{Bytes, NoNul, accepted}
use libyaooi.Addr.{Addr, v4, v6, addrparse, memcmp, addrcmp}
use libyaooi.Addr.V4.Grammar.{Dotted}
use libyaooi.Addr.V4.Exact.{parse_ipv4-Dotted}

memcmp_lem : (xs ys : List ℕ) → length xs ≡ length ys → (memcmp xs ys ≡ true) ↔ (xs ≡ ys)
unfolding memcmp
memcmp_lem [] [] l = (ground arith, ground arith)
memcmp_lem [] (y ∷ ys) l = absurd (omega arith)
memcmp_lem (x ∷ xs) [] l = absurd (omega arith)
memcmp_lem (x ∷ xs) (y ∷ ys) l =
    let (to, from) = memcmp_lem xs ys (omega arith) in (ground (arith, to), ground (arith, from))

-- The sizes of the two arrays.
abbrev pub IsAddr : Addr → Type 0
IsAddr (v4 parts) = length parts ≡ 4
IsAddr (v6 words) = length words ≡ 8

-- `yo_addrcmp` is true exactly of equal addresses.
pub addrcmp-eq : (a b : Addr) → IsAddr a → IsAddr b → (addrcmp a b ≡ true) ↔ (a ≡ b)
unfolding addrcmp
addrcmp-eq (v4 xs) (v4 ys) p q =
    let (to, from) = memcmp_lem xs ys (omega arith) in (ground (arith, to), ground (arith, from))
addrcmp-eq (v6 xs) (v6 ys) p q =
    let (to, from) = memcmp_lem xs ys (omega arith) in (ground (arith, to), ground (arith, from))
addrcmp-eq (v4 xs) (v6 ys) p q = (ground arith, ground arith)
addrcmp-eq (v6 xs) (v4 ys) p q = (ground arith, ground arith)

-- `yo_addrparse` gives an IPv4 address exactly for the dotted quads, with the bytes that they spell.
pub addrparse-v4 :
    (pres : Bool) (s : Bytes) (vs : List ℕ)
    → NoNul s
    → (addrparse pres s ≡ accepted (v4 vs)) ↔ (Dotted s vs × (length vs ≡ 4))
unfolding addrparse
addrparse-v4 pres s vs h =
    let (to, from) = parse_ipv4-Dotted s vs h in
    (λ e. to (ground arith), λ d. rw (addrparse, from d))
