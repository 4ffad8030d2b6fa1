-- ===== src/Ansi/Clock/Slept.antt =====
-- When `yo_timesleep` of src/ansi/impl.c ends.
use libyaooi.Prelude.{
  ℕ, suc, ◌+◌, ◌-◌, ◌*◌, ◌≤◌, ◌<◌, ◌≡◌, refl, true, false, some, List, [], ◌∷◌, ◌++◌, All, ltb,
  arith,
}
use libyaooi.Prelude.Int.{ℤ, pos, negsuc}
use libyaooi.Time.{Time}
use libyaooi.Ansi.Clock.{ticks, end_at, end_of, spin, timesleep}

-- The nanoseconds of a time, and 0 for one that is before the start of the clock.
abbrev pub nanoseconds_at : (sec : ℤ) → (nsec : ℕ) → ℕ
nanoseconds_at (pos s) nsec = s * 1000000000 + nsec
nanoseconds_at (negsuc s) nsec = nsec - suc s * 1000000000

abbrev pub nanoseconds : Time → ℕ
nanoseconds t = nanoseconds_at t.sec t.nsec

-- A reading that is a microsecond or more before a time.
abbrev pub Early : Time → ℕ → Type 0
Early t now = nanoseconds (ticks 1000000 now) + 1000 ≤ nanoseconds t

spin_lem :
    (end : ℕ) (before : List ℕ) (now : ℕ) (rest : List ℕ)
    → All (λ b. b < end) before
    → end ≤ now
    → spin end (before ++ now ∷ rest) ≡ some now
unfolding spin
spin_lem end [] now rest h n = let e : ltb now end ≡ false = ground arith in rw e refl
spin_lem end (b ∷ before) now rest (h, hs) n =
    let e : ltb b end ≡ true = ground arith in rw e (spin_lem end before now rest hs n)

early_at :
    (sec : ℤ) (nsec b : ℕ)
    → nanoseconds (ticks 1000000 b) + 1000 ≤ nanoseconds_at sec nsec
    → b < end_at 1000000 sec nsec
early_at (pos s) nsec b h = omega (arith, h)
early_at (negsuc s) nsec b h = omega (arith, h)

late_at :
    (sec : ℤ) (nsec now : ℕ)
    → nanoseconds_at sec nsec < nanoseconds (ticks 1000000 now) + 1000
    → end_at 1000000 sec nsec ≤ now
late_at (pos s) nsec now h = omega (arith, h)
late_at (negsuc s) nsec now h = omega (arith, h)

Early-end_of :
    (t : Time) (before : List ℕ) → All (Early t) before → All (λ b. b < end_of 1000000 t) before
Early-end_of t [] h = tt
Early-end_of t (b ∷ before) (h, hs) = (early_at t.sec t.nsec b h, Early-end_of t before hs)

-- Where a second has a million ticks, `yo_timesleep` of the ansi port ends with the first reading of the clock that is behind the
-- time, or less than a microsecond before it; for a time before the start of the clock, this is the first reading.
pub timesleep_first :
    (t : Time) (before rest : List ℕ) (now : ℕ)
    → All (Early t) before
    → nanoseconds t < nanoseconds (ticks 1000000 now) + 1000
    → timesleep 1000000 t (before ++ now ∷ rest) ≡ some now
timesleep_first t before rest now h n =
    spin_lem (end_of 1000000 t) before now rest (Early-end_of t before h)
      (late_at t.sec t.nsec now n)
