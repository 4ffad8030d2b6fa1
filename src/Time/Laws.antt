-- ===== src/Time/Laws.antt =====
-- What the operations of `Time` mean on the line of nanoseconds.
use libyaooi.Prelude.{
  ◌+◌, ◌<◌, ◌≡◌, ◌≢◌, ◌↔◌, refl, sym, ◌⊎◌, inl, inr, true, false, arith, ltb, Bool-cases, ◌==◌,
  ltb→lt, ltb→le, ==→eq,
}
use libyaooi.Prelude.Int.{
  ℤ, pos, negsuc, pos_part, neg_part, ◌+ℤ◌, ◌-ℤ◌, ◌*ℤ◌, ◌≤ℤ◌, ◌<ℤ◌, eqb_ℤ, ltb_ℤ, eq_of_parts,
  int_laws,
}
use libyaooi.Time.{Time, giga, add_u32, sub_u32, borrow, timeadd, timesub, timecmp, timems}

-- The nanoseconds that a time stands for.
abbrev pub nanos : Time → ℤ
nanos t = (t.sec *ℤ giga) +ℤ pos t.nsec

abbrev pub IsNormal : Time → Type 0
IsNormal t = t.nsec < giga

-- `yo_timeadd` of two normalised times stands for the sum of their nanoseconds.
pub nanos-timeadd :
    (a b : Time) → IsNormal a → IsNormal b → nanos (timeadd a b) ≡ nanos a +ℤ nanos b
unfolding timeadd
nanos-timeadd a b ha hb = elim (Bool-cases (ltb giga (add_u32 a.nsec b.nsec))) [
  | inl over ↦ rw over (omega (int_laws, ltb→lt _ _ over))
  | inr fits ↦ rw fits (omega (int_laws, ltb→le _ _ fits))
]

-- The sum of two normalised times is normalised exactly when their nanosecond fields do not add up
-- to 1000000000: the carry is made above that value and not at it.
pub timeadd-IsNormal :
    (a b : Time) → IsNormal a → IsNormal b → IsNormal (timeadd a b) ↔ (a.nsec + b.nsec ≢ giga)
unfolding timeadd
timeadd-IsNormal a b ha hb = (ground arith, ground arith)

-- The second correction of `yo_timesub` is never made on normalised times.
no_carry :
    (a b : Time) → IsNormal a → IsNormal b → ltb giga (sub_u32 (borrow a b).nsec b.nsec) ≡ false
unfolding borrow
no_carry a b ha hb = ground arith

nanos-timesub : (a b : Time) → IsNormal a → IsNormal b → nanos (timesub a b) ≡ nanos a -ℤ nanos b
unfolding timesub
nanos-timesub a b ha hb = elim (Bool-cases (ltb a.nsec b.nsec)) [
  | inl less ↦ rw (no_carry a b ha hb) (rw less (omega (int_laws, ltb→lt _ _ less)))
  | inr more ↦ rw (no_carry a b ha hb) (rw more (omega (int_laws, ltb→le _ _ more)))
]

timesub-IsNormal : (a b : Time) → IsNormal a → IsNormal b → IsNormal (timesub a b)
unfolding timesub
timesub-IsNormal a b ha hb = ground arith

-- `yo_timesub` of two normalised times stands for the difference of their nanoseconds and is itself
-- normalised.
pub timesub_exact :
    (a b : Time)
    → IsNormal a
    → IsNormal b
    → (nanos (timesub a b) ≡ nanos a -ℤ nanos b) × IsNormal (timesub a b)
timesub_exact a b ha hb = (nanos-timesub a b ha hb, timesub-IsNormal a b ha hb)

pub Time_eq : (a b : Time) → a.sec ≡ b.sec → a.nsec ≡ b.nsec → a ≡ b
Time_eq a b p q = λ i. record { sec = p i; nsec = q i }

-- Subtracting what was added gives the first time back, for normalised times.
pub timesub-timeadd : (a b : Time) → IsNormal a → IsNormal b → timesub (timeadd a b) b ≡ a
unfolding timesub timeadd borrow
timesub-timeadd a b ha hb = elim (Bool-cases (ltb giga (add_u32 a.nsec b.nsec))) [
  | inl over ↦
      let n : ltb (sub_u32 (add_u32 a.nsec b.nsec) giga) b.nsec ≡ true = ground arith in
      let m : ltb giga (sub_u32 (add_u32 (sub_u32 (add_u32 a.nsec b.nsec) giga) giga) b.nsec)
          ≡ false =
        ground arith in
      rw over (rw n (rw m (Time_eq _ _ (omega int_laws) (ground arith))))
  | inr fits ↦
      let n : ltb (add_u32 a.nsec b.nsec) b.nsec ≡ false = ground arith in
      let m : ltb giga (sub_u32 (add_u32 a.nsec b.nsec) b.nsec) ≡ false = ground arith in
      rw fits (rw n (rw m (Time_eq _ _ (omega int_laws) (ground arith))))
]

-- The sign of `timecmp` as a statement about nanoseconds.
abbrev pub Compares : Time → Time → ℤ → Type 0
Compares a b r =
    ((r ≡ negsuc 0) × (nanos a <ℤ nanos b))
    ⊎ ((r ≡ pos 0) × (a ≡ b))
    ⊎ ((r ≡ pos 1) × (nanos b <ℤ nanos a))

nsec_lt :
    (a b : Time)
    → pos_part a.sec + neg_part b.sec ≡ pos_part b.sec + neg_part a.sec
    → a.nsec < b.nsec
    → nanos a <ℤ nanos b
nsec_lt a b same h = omega int_laws

sec_lt : (a b : Time) → IsNormal a → IsNormal b → a.sec <ℤ b.sec → nanos a <ℤ nanos b
sec_lt a b ha hb h = omega int_laws

-- `yo_timecmp` of two normalised times is -1 and the first stands for fewer nanoseconds, or 0 and
-- they are equal, or 1 and the first stands for more nanoseconds.
pub timecmp-nanos : (a b : Time) → IsNormal a → IsNormal b → Compares a b (timecmp a b)
unfolding timecmp
timecmp-nanos a b ha hb = elim (Bool-cases (eqb_ℤ a.sec b.sec)) [
  | inl same ↦
      let sec : a.sec ≡ b.sec = eq_of_parts _ _ (==→eq _ _ same) in
      rw same (elim (Bool-cases (a.nsec == b.nsec)) [
        | inl e ↦ rw e (inr (inl (refl, Time_eq a b sec (==→eq _ _ e))))
        | inr ne ↦ rw ne (elim (Bool-cases (ltb a.nsec b.nsec)) [
          | inl less ↦ rw less (inl (refl, nsec_lt a b (==→eq _ _ same) (ltb→lt _ _ less)))
          | inr more ↦ rw more (inr (inr (refl, nsec_lt b a (sym (==→eq _ _ same)) (ground arith))))
        ])
      ])
  | inr differ ↦ rw differ (elim (Bool-cases (ltb_ℤ a.sec b.sec)) [
    | inl less ↦ rw less (inl (refl, sec_lt a b ha hb (ltb→lt _ _ less)))
    | inr more ↦ rw more (inr (inr (refl, sec_lt b a hb ha (ground arith))))
  ])
]

-- `yo_timems` of a normalised time is its nanoseconds in milliseconds, rounded up.
pub timems-ceiling :
    (t : Time)
    → IsNormal t
    → (nanos t ≤ℤ timems t *ℤ 1000000) × (timems t *ℤ 1000000 <ℤ nanos t +ℤ pos 1000000)
unfolding timems
timems-ceiling t h = omega int_laws
