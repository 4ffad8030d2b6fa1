-- ===== src/Waits/Enough.antt =====
-- The waits reach their deadlines.
use libyaooi.Prelude.{
  ◌%◌, ◌^◌, ◌≤◌, ◌≡◌, refl, ap, true, false, Bool-cases, inl, inr, ◌⊎◌, ltb→lt, ltb→le, ltb, arith,
  if◌then◌else◌,
}
use libyaooi.Prelude.Int.{
  ℤ, pos, negsuc, pos_part, neg_part, ltb_ℤ, ◌-ℤ◌, ◌+ℤ◌, ◌*ℤ◌, ◌≤ℤ◌, ◌<ℤ◌, int_laws,
}
use libyaooi.Time.{Time, timesub, timems}
use libyaooi.Time.Laws.{IsNormal, nanos, timesub_exact, timems-ceiling}
use libyaooi.Waits.{ppoll_wait, wait_ms, dword_of, int_of, poll_ms, sleep_ms}

-- The remaining time is waited for on Linux, and elsewhere as many milliseconds as are begun in it; or it is past, and nothing is waited for.
abbrev pub Waits : (deadline now : Time) → Type 0
Waits deadline now =
    ((nanos now ≤ℤ nanos deadline)
      × (nanos (ppoll_wait deadline now) ≡ nanos deadline -ℤ nanos now)
      × (nanos deadline -ℤ nanos now ≤ℤ wait_ms deadline now *ℤ 1000000)
      × (wait_ms deadline now *ℤ 1000000 <ℤ (nanos deadline -ℤ nanos now) +ℤ pos 1000000))
    ⊎ ((nanos deadline <ℤ nanos now)
        × (nanos (ppoll_wait deadline now) ≡ pos 0)
        × (wait_ms deadline now ≡ pos 0))

-- The tests of the code for what is past.
not_past : (a : ℤ) → pos 0 ≤ℤ a → ltb_ℤ a (pos 0) ≡ false
not_past a h = ground (arith, h)

is_past : (a : ℤ) → a <ℤ pos 0 → ltb_ℤ a (pos 0) ≡ true
is_past a h = ground (arith, h)

bounded_early :
    (deadline now : Time)
    → IsNormal deadline
    → IsNormal now
    → nanos now ≤ℤ nanos deadline
    → Waits deadline now
unfolding ppoll_wait wait_ms
bounded_early deadline now d n l =
    let (exact, norm) = timesub_exact deadline now d n in
    let (low, high) = timems-ceiling (timesub deadline now) norm in
    let up = ap (λ a. pos_part a) exact in
    let down = ap (λ a. neg_part a) exact in
    let later = not_past (timesub deadline now).sec (omega (int_laws, up, down, norm, l)) in
    let some_ms = not_past (timems (timesub deadline now)) (omega (int_laws, up, down, low, l)) in
    inl (
      l,
      rw later exact,
      rw some_ms (omega (int_laws, up, down, low)),
      rw some_ms (omega (int_laws, up, down, high)),
    )

past_ms : (a : ℤ) → a *ℤ 1000000 <ℤ pos 1000000 → (if ltb_ℤ a (pos 0) then pos 0 else a) ≡ pos 0
past_ms a h = elim (Bool-cases (ltb_ℤ a (pos 0))) [
  | inl e ↦ rw e refl
  | inr e ↦ let low = ltb→le _ _ e in rw e (omega (int_laws, h, low))
]

bounded_late :
    (deadline now : Time)
    → IsNormal deadline
    → IsNormal now
    → nanos deadline <ℤ nanos now
    → Waits deadline now
unfolding ppoll_wait wait_ms
bounded_late deadline now d n l =
    let (exact, norm) = timesub_exact deadline now d n in
    let (low, high) = timems-ceiling (timesub deadline now) norm in
    let up = ap (λ a. pos_part a) exact in
    let down = ap (λ a. neg_part a) exact in
    let past = is_past (timesub deadline now).sec (omega (int_laws, up, down, norm, l)) in
    inr (
      l,
      rw past (omega int_laws),
      past_ms (timems (timesub deadline now)) (omega (int_laws, up, down, high, l)),
    )

-- The conversion of milliseconds that an int can hold.
Kept : ℤ → Type 0
Kept ms = (int_of ms ≡ ms) ⊎ (2 ^ 31 ≤ pos_part ms)

int_of-Kept : (ms : ℤ) → neg_part ms ≡ 0 → Kept ms
unfolding Kept
int_of-Kept (pos k) h = elim (Bool-cases (ltb k (2 ^ 31))) [
  | inl e ↦
      let same : k % 2 ^ 32 ≡ k = omega (arith, ltb→lt k (2 ^ 31) e) in inl (rw same (rw e refl))
  | inr e ↦ inr (ltb→le k (2 ^ 31) e)
]
int_of-Kept (negsuc k) h = absurd (omega (arith, h))

not_negative : (a : ℤ) → neg_part (if ltb_ℤ a (pos 0) then pos 0 else a) ≡ 0
not_negative (pos k) = elim (Bool-cases (ltb_ℤ (pos k) (pos 0))) [
  | inl e ↦ rw e refl
  | inr e ↦ rw e refl
]
not_negative (negsuc k) = elim (Bool-cases (ltb_ℤ (negsuc k) (pos 0))) [
  | inl e ↦ rw e refl
  | inr e ↦ absurd (omega (arith, ltb→le _ _ e))
]

wait_ms-not_negative : (deadline now : Time) → neg_part (wait_ms deadline now) ≡ 0
unfolding wait_ms
wait_ms-not_negative deadline now = not_negative (timems (timesub deadline now))

one_sided : (a : ℤ) → (pos_part a ≡ 0) ⊎ (neg_part a ≡ 0)
one_sided (pos k) = inr refl
one_sided (negsuc k) = inl refl

-- Where its deadline is not past, `_yoi_poll_wrapper` asks ppoll for just the time that remains, and poll for the milliseconds that
-- are begun in it; where it is past, for no time. What poll is given as an int is this number, or it is at
-- least 2^31.
pub poll_ms-Waits :
    (deadline now : Time)
    → IsNormal deadline
    → IsNormal now
    → Waits deadline now
      × ((poll_ms deadline now ≡ wait_ms deadline now) ⊎ (2 ^ 31 ≤ pos_part (wait_ms deadline now)))
unfolding poll_ms Kept
poll_ms-Waits deadline now d n = (waits, int_of-Kept (wait_ms deadline now) fine)
  where
    fine : neg_part (wait_ms deadline now) ≡ 0
    fine = wait_ms-not_negative deadline now

    waits : Waits deadline now
    waits = elim (Bool-cases (ltb_ℤ (nanos deadline) (nanos now))) [
      | inl e ↦ bounded_late deadline now d n (ltb→lt _ _ e)
      | inr e ↦ bounded_early deadline now d n (ltb→le _ _ e)
    ]

dword_of_negative : (a : ℤ) → a <ℤ pos 0 → neg_part a ≤ 2 ^ 31 → 2 ^ 31 ≤ dword_of a
dword_of_negative (pos k) h l = absurd (omega (arith, h))
dword_of_negative (negsuc k) h l = omega (arith, l)

-- `yo_timesleep` of the Windows port sleeps for more than 2^31 milliseconds where its time is past by a millisecond or more, and less
-- than 2^31 of them.
pub sleep_ms_past :
    (until now : Time)
    → IsNormal until
    → IsNormal now
    → nanos until +ℤ pos 1000000 ≤ℤ nanos now
    → nanos now <ℤ nanos until +ℤ pos 2147483648000000
    → 2 ^ 31 ≤ sleep_ms until now
unfolding sleep_ms
sleep_ms_past until now u n past near =
    let (exact, norm) = timesub_exact until now u n in
    let (low, high) = timems-ceiling (timesub until now) norm in
    let up = ap (λ a. pos_part a) exact in
    let down = ap (λ a. neg_part a) exact in
    dword_of_negative (timems (timesub until now)) (omega (int_laws, up, down, high, past))
      (omega (int_laws, up, down, low, near, one_sided (timems (timesub until now))))
