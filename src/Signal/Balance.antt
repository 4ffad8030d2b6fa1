-- ===== src/Signal/Balance.antt =====
-- `yo_sig_off` undoes `yo_sig_on`: the counts are reference counts.
use libyaooi.Prelude.{
  ℕ, ◌+◌, ◌-◌, ◌^◌, ◌<◌, ◌≡◌, inl, inr, refl, sym, ap, ◌∙◌, false, Option, none, some, ◌==◌, arith,
  Bool-cases, ==→eq,
}
use libyaooi.Signal.Names.{Signo, signo_index, OsSignal, conv_signal}
use libyaooi.Signal.{accepted, Core, update, sig_init, install, sig_on, sig_off}
use libyaooi.Signal.Counts.{
  active, IsValid, sig_init-counts, signo_index-injective, sig_on-IsValid, sig_off-IsValid,
}

counts-sig_on :
    (sig : Signo) (c : Core)
    → IsValid c
    → c.counts sig + 1 < 2 ^ 64
    → (s : Signo) → (sig_on accepted sig c).1.counts s ≡ update c.counts sig (c.counts sig + 1) s
unfolding sig_on install
counts-sig_on sig c v small s = elim (Bool-cases ((sig_init c).counts sig == 0)) [
  | inl zero ↦ rw zero (ground (arith, sig_init-counts c v s, sig_init-counts c v sig))
  | inr more ↦ rw more (ground (arith, sig_init-counts c v s, sig_init-counts c v sig))
]

counts-sig_off :
    (sig : Signo) (c : Core)
    → IsValid c
    → (s : Signo) → (sig_off accepted sig c).1.counts s ≡ update c.counts sig (c.counts sig - 1) s
unfolding sig_off install
counts-sig_off sig c v s =
    let d : Core = sig_init c in
    let here = sig_init-counts c v s in
    let there = sig_init-counts c v sig in
    elim (Bool-cases (d.counts sig == 1)) [
      | inl one ↦
          let more : (d.counts sig == 0) ≡ false = ground arith in
          rw one (rw more (ground (arith, here, there)))
      | inr other ↦ rw other (elim (Bool-cases (d.counts sig == 0)) [
        | inl zero ↦ rw zero (elim (Bool-cases (signo_index s == signo_index sig)) [
          | inl same ↦ rw same (
              ground
                (arith, here, there, ap c.counts (signo_index-injective s sig (==→eq _ _ same))))
          | inr apart ↦ rw apart here
        ])
        | inr more ↦ rw more (ground (arith, here, there))
      ])
    ]

active-counts :
    (f g : Signo → ℕ) → ((s : Signo) → f s ≡ g s) → (t : Option Signo) → active f t ≡ active g t
unfolding active
active-counts f g h none = refl
active-counts f g h (some t) = rw (h t)

-- Calling `yo_sig_on` and then `yo_sig_off` for one signal, where the system accepts both masks, gives
-- every signal its count back and the set of blocked signals its members.
pub sig_off-sig_on :
    (sig : Signo) (c : Core)
    → IsValid c
    → c.counts sig + 1 < 2 ^ 64
    → let d : Core = (sig_off accepted sig (sig_on accepted sig c).1).1 in
      ((s : Signo) → d.counts s ≡ c.counts s) × ((o : OsSignal) → d.set o ≡ c.set o)
sig_off-sig_on sig c v small =
    let c1 : Core = (sig_on accepted sig c).1 in
    let v1 : IsValid c1 = sig_on-IsValid accepted sig c v small in
    let d : Core = (sig_off accepted sig c1).1 in
    let w : IsValid d = sig_off-IsValid accepted sig c1 v1 in
    let same : (s : Signo) → d.counts s ≡ c.counts s = λ s.
      elim (Bool-cases (signo_index s == signo_index sig)) [
        | inl e ↦ ground (
          arith,
          e,
          counts-sig_off sig c1 v1 s,
          counts-sig_on sig c v small sig,
          counts-sig_on sig c v small s,
          ap c.counts (signo_index-injective s sig (==→eq _ _ e)),
        )
        | inr e ↦ ground (arith, e, counts-sig_off sig c1 v1 s, counts-sig_on sig c v small s)
      ] in
    (
      same,
      λ o. w.matches o ∙ active-counts d.counts c.counts same (conv_signal o) ∙ sym (v.matches o),
    )
