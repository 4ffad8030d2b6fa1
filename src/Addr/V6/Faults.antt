-- ===== src/Addr/V6/Faults.antt =====
-- When `parse_ipv6` runs into undefined behaviour: the `memmove` is never reached.
use libyaooi.Prelude.{
  ℕ, zero, suc, ◌≡◌, ◌≢◌, ◌↔◌, refl, ◌∙◌, Bool, true, false, ◌&&◌, ◌⊎◌, inl, inr, List, ◌==◌, some,
  Option-cases, Bool-cases, arith, ==→eq, if◌then◌else◌, get_or, set,
}
use libyaooi.Prelude.Int.{ℤ, pos, negsuc}
use libyaooi.Addr.Chars.{isxdigit, Bytes, peek, next, accepted, fault}
use libyaooi.Addr.V6.{
  xdigits, Scan, Round, continue, break, return_false, round, round_end, rounds, shift_groups,
  finish, start, parse_ipv6,
}

abbrev Keeps : ℤ → Round → Type 0
Keeps z (continue g) = g.zeroes_i ≡ z
Keeps z (break g) = g.zeroes_i ≡ z
Keeps z return_false = Unit {0}

round_end-Keeps : (g : Scan) → Keeps g.zeroes_i (round_end g)
unfolding round_end
round_end-Keeps g = elim (Bool-cases (peek g.it == 0)) [ inl e ↦ rw e refl | inr e ↦ rw e refl ]

-- A round that would store `zeroes_i` needs a byte that both is and is not a colon.
round-Keeps : (g : Scan) → Keeps g.zeroes_i (round g)
unfolding round
round-Keeps g = elim (Bool-cases (isxdigit (peek g.it))) [
  | inr bad ↦ rw bad tt
  | inl digit ↦
      let (word, it) = xdigits 4 (get_or g.v6 g.i 0) g.it in
      rw digit (elim (Bool-cases (peek it == b':')) [
        | inl colon ↦ rw colon refl
        | inr other ↦ rw other (round_end-Keeps (record g { v6 = set g.v6 g.i word; it = it }))
      ])
]

rounds-Keeps : (k : ℕ) (g : Scan) {h : Scan} → rounds k g ≡ some h → h.zeroes_i ≡ g.zeroes_i
unfolding rounds
rounds-Keeps zero g e = ground arith
rounds-Keeps (suc k) g {h} e =
    (elim (round g) as (λ r. Keeps g.zeroes_i r → round g ≡ r → h.zeroes_i ≡ g.zeroes_i) [
      | continue g' ↦ λ kept eq. rounds-Keeps k g' {h = h} (ground arith) ∙ kept
      | break g' ↦ λ kept eq. ground arith
      | return_false ↦ λ kept eq. absurd (ground arith)
    ])
      (round-Keeps g) refl

shift_start :
    (g : Scan) → (g.zeroes_i ≡ negsuc 0) ⊎ (g.zeroes_i ≡ pos 0) → shift_groups g ≡ some g.v6
unfolding shift_groups
shift_start g (inl e) = rw e
shift_start g (inr e) = rw e

finish-ne-fault :
    (k : ℕ) (z : ℤ) (it : Bytes)
    → (z ≡ negsuc 0) ⊎ (z ≡ pos 0)
    → finish (rounds k (start z it)) ≢ fault
unfolding finish
finish-ne-fault k z it zs h = elim (Option-cases (rounds k (start z it))) [
  | inl e ↦ absurd (ground arith)
  | inr (g, e) ↦
      let kept : g.zeroes_i ≡ z = rounds-Keeps k (start z it) e in
      let ok : shift_groups g ≡ some g.v6 = shift_start g (rw kept zs) in absurd (ground arith)
]

and_parts : (a b : Bool) → (a && b) ≡ true → (a ≡ true) × (b ≡ true)
and_parts a b h = ground arith

null_pres :
    (pres : Bool) (words : List ℕ) → (if pres then accepted words else fault) ≡ fault → pres ≡ false
null_pres pres words h = ground arith

-- `yo_parse_ipv6` has undefined behaviour on exactly one string, "::", and only where the result
-- pointer is NULL. The `memmove` outside the eight words is never reached.
pub parse_ipv6-fault :
    (pres : Bool) (s : Bytes)
    → (parse_ipv6 pres s ≡ fault)
      ↔ ((pres ≡ false) × (peek s ≡ b':') × (peek (next s) ≡ b':') × (peek (next (next s)) ≡ 0))
unfolding parse_ipv6
parse_ipv6-fault pres s = (only, λ p. rw (parse_ipv6, p.1, p.2, p.3, p.0))
  where
    only :
        parse_ipv6 pres s ≡ fault
        → (pres ≡ false) × (peek s ≡ b':') × (peek (next s) ≡ b':') × (peek (next (next s)) ≡ 0)
    only h = elim (Bool-cases ((peek s == b':') && (peek (next s) == b':'))) [
      | inr plain ↦ absurd (finish-ne-fault 8 (negsuc 0) s (inl refl) (rw plain at h))
      | inl colons ↦ elim (Bool-cases (peek (next (next s)) == 0)) [
        | inr more ↦
            absurd (finish-ne-fault 8 (pos 0) (next (next s)) (inr refl) (rw (colons, more) at h))
        | inl ending ↦
            let (first, second) = and_parts _ _ colons in
            (
              null_pres pres _ (rw (colons, ending) at h),
              ==→eq _ _ first,
              ==→eq _ _ second,
              ==→eq _ _ ending,
            )
      ]
    ]
