-- ===== src/Signal/Counts.antt =====
-- The set of blocked signals follows the counts of `yo_sig_on` and `yo_sig_off`.
use libyaooi.Prelude.{
  ℕ, ◌+◌, ◌%◌, ◌^◌, ◌<◌, ◌≡◌, ◌≢◌, ◌↔◌, inl, inr, refl, sym, ap, ◌∙◌, Bool, true, false, not, ◌||◌,
  ◌&&◌, Option, none, some, ◌==◌, if◌then◌else◌, arith, Bool-cases, ==→eq, ==_self,
}
use libyaooi.Signal.Names.{Signo, signo_index, OsSignal, os_index, group, conv_signal}
use libyaooi.Signal.{
  Sigset, add_all, del_all, sigemptyset, sigfillset, Core, update, sig_init, Setmask, accepted,
  unseen, refused, install, sig_on, sig_off,
}

-- Whether a signal of the system is one that an active logical signal stands for.
unfoldable pub active : (Signo → ℕ) → Option Signo → Bool
active counts none = false
active counts (some sig) = not (counts sig == 0)

-- The set holds exactly the signals of the active logical signals, and before the first call nothing
-- is active.
pub record IsValid (c : Core) : Type 0 where
  pub matches : (o : OsSignal) → c.set o ≡ active c.counts (conv_signal o)
  pub fresh : c.init ≡ false → (s : Signo) → c.counts s ≡ 0

belongs : Signo → Option Signo → Bool
belongs sig none = false
belongs sig (some t) = signo_index t == signo_index sig

add_all-group :
    (set : Sigset) (sig : Signo) (o : OsSignal)
    → add_all set (group sig) o ≡ (belongs sig (conv_signal o) || set o)
unfolding group conv_signal belongs os_index signo_index
add_all-group set Signo.int OsSignal.sighup = refl
add_all-group set _ (OsSignal.other n) = ground arith
add_all-group set _ _ = refl

del_all-group :
    (set : Sigset) (sig : Signo) (o : OsSignal)
    → del_all set (group sig) o ≡ (not (belongs sig (conv_signal o)) && set o)
unfolding group conv_signal belongs os_index signo_index
del_all-group set Signo.int OsSignal.sighup = refl
del_all-group set _ (OsSignal.other n) = ground arith
del_all-group set _ _ = refl

-- A signal of the system belongs to the logical signal that it is converted to, and to no other.
pub signo_index-injective : (s t : Signo) → signo_index s ≡ signo_index t → s ≡ t
unfolding signo_index
signo_index-injective Signo.int Signo.int e = refl
signo_index-injective _ _ e = ground arith

active-update :
    (counts : Signo → ℕ) (sig : Signo) (n : ℕ) (t : Option Signo)
    → active (update counts sig n) t ≡ (if belongs sig t then not (n == 0) else active counts t)
unfolding active belongs
active-update counts sig n none = refl
active-update counts sig n (some t) = ground arith

belongs-active :
    (counts : Signo → ℕ) (sig : Signo) (t : Option Signo)
    → belongs sig t ≡ true
    → active counts t ≡ not (counts sig == 0)
unfolding active belongs
belongs-active counts sig none h = absurd (cc)
belongs-active counts sig (some t) h =
    ap (λ s. not (counts s == 0)) (signo_index-injective t sig (==→eq _ _ h))

active-zero :
    (counts : Signo → ℕ)
    → ((s : Signo) → counts s ≡ 0)
    → (t : Option Signo) → active counts t ≡ false
unfolding active
active-zero counts h none = refl
active-zero counts h (some t) = rw (h t)

sig_init-IsValid : (c : Core) → IsValid c → IsValid (sig_init c)
unfolding sig_init
sig_init-IsValid c v = elim (Bool-cases c.init) [
  | inl old ↦ simp old v
  | inr new ↦ rw new (record {
    matches = λ o. sym (active-zero (λ _. 0) (λ s. refl) (conv_signal o));
    fresh = λ e s. refl;
  })
]

-- `yo_sig_init` leaves the counts as they are.
pub sig_init-counts : (c : Core) → IsValid c → (s : Signo) → (sig_init c).counts s ≡ c.counts s
unfolding sig_init
sig_init-counts c v s = elim (Bool-cases c.init) [
  | inl old ↦ rw old
  | inr new ↦ rw new (sym (v.fresh new s))
]

pub sig_init-init : (c : Core) → (sig_init c).init ≡ true
unfolding sig_init
sig_init-init c = elim (Bool-cases c.init) [ inl old ↦ simp old | inr new ↦ simp new ]

module _ (set : Sigset) (counts : Signo → ℕ) (sig : Signo) (n : ℕ) (o : OsSignal)
    (same : set o ≡ active counts (conv_signal o)) where
  raise-matches :
      counts sig ≡ 0
      → n ≢ 0
      → add_all set (group sig) o ≡ active (update counts sig n) (conv_signal o)
  raise-matches z ne =
      ground (arith, active-update counts sig n (conv_signal o), add_all-group set sig o)

  keep-matches : counts sig ≢ 0 → n ≢ 0 → set o ≡ active (update counts sig n) (conv_signal o)
  keep-matches z ne =
      ground (
        arith,
        active-update counts sig n (conv_signal o),
        belongs-active counts sig (conv_signal o),
      )

  lower-matches : n ≡ 0 → del_all set (group sig) o ≡ active (update counts sig n) (conv_signal o)
  lower-matches z =
      ground (arith, active-update counts sig n (conv_signal o), del_all-group set sig o)

-- A count that was not zero and does not become zero leaves the set right.
keep-IsValid :
    (d : Core) (sig : Signo) (n : ℕ)
    → IsValid d
    → d.init ≡ true
    → (d.counts sig == 0) ≡ false
    → n ≢ 0
    → IsValid (record d { counts = update d.counts sig n })
keep-IsValid d sig n w ini more ne = record {
  matches = λ o. keep-matches d.set d.counts sig n o (w.matches o) (ground arith) ne;
  fresh = λ e. absurd (cc);
}

-- Whatever the system makes of a new mask, the set is right if it is where the mask is taken.
install-IsValid :
    (os : Setmask) (d : Core) (set : Sigset) (count : Core → Core)
    → IsValid d
    → ((mask : Sigset) → IsValid (count (record d { set = set; blocked = mask })))
    → IsValid (install os d set count).1
unfolding install
install-IsValid accepted d set count w v = v set
install-IsValid (unseen e) d set count w v = v d.blocked
install-IsValid (refused e) d set count w v = w

-- `yo_sig_on` keeps the set right, whatever the system makes of the new mask, as long as the
-- count does not overflow.
pub sig_on-IsValid :
    (os : Setmask) (sig : Signo) (c : Core)
    → IsValid c
    → c.counts sig + 1 < 2 ^ 64
    → IsValid (sig_on os sig c).1
unfolding sig_on install
sig_on-IsValid os sig c v small =
    let d : Core = sig_init c in
    let w : IsValid d = sig_init-IsValid c v in
    let ini : d.init ≡ true = sig_init-init c in
    let n : (d.counts sig + 1) % 2 ^ 64 ≢ 0 = omega (arith, sig_init-counts c v sig) in
    elim (Bool-cases (d.counts sig == 0)) [
      | inl zero ↦ rw zero (
          install-IsValid os d _ _ w (λ mask. record {
            matches = λ o. raise-matches d.set d.counts sig _ o (w.matches o) (==→eq _ _ zero) n;
            fresh = λ e. absurd (cc);
          }))
      | inr more ↦ rw more (keep-IsValid d sig _ w ini more n)
    ]

-- `yo_sig_off` keeps the set right, whatever the system makes of the new mask.
pub sig_off-IsValid :
    (os : Setmask) (sig : Signo) (c : Core) → IsValid c → IsValid (sig_off os sig c).1
unfolding sig_off install
sig_off-IsValid os sig c v =
    let d : Core = sig_init c in
    let w : IsValid d = sig_init-IsValid c v in
    let ini : d.init ≡ true = sig_init-init c in
    elim (Bool-cases (d.counts sig == 1)) [
      | inl one ↦
          let more : (d.counts sig == 0) ≡ false = ground arith in
          rw one (
            install-IsValid os d _ _ w (λ mask. rw more (record {
              matches = λ o. lower-matches d.set d.counts sig _ o (w.matches o) (ground arith);
              fresh = λ e. absurd (cc);
            })))
      | inr other ↦ rw other (elim (Bool-cases (d.counts sig == 0)) [
        | inl zero ↦ rw zero w
        | inr more ↦ rw more (keep-IsValid d sig _ w ini more (ground arith))
      ])
    ]

belongs-some : (sig : Signo) (t : Option Signo) → (belongs sig t ≡ true) ↔ (t ≡ some sig)
unfolding belongs
belongs-some sig none = (cc, cc)
belongs-some sig (some t) = (
  λ h. ap some (signo_index-injective t sig (==→eq _ _ h)),
  λ e. ap (belongs sig) e ∙ ==_self (signo_index sig),
)

-- The signals that `yo_sig_on` adds for a logical signal are exactly those that
-- `yoi_unix_conv_signal` converts to it, and `yo_sig_off` removes the same ones.
pub group-conv_signal :
    (sig : Signo) (o : OsSignal)
    → ((add_all sigemptyset (group sig) o ≡ true) ↔ (conv_signal o ≡ some sig))
      × ((del_all sigfillset (group sig) o ≡ false) ↔ (conv_signal o ≡ some sig))
group-conv_signal sig o =
    let (to, from) = belongs-some sig (conv_signal o) in
    let added = add_all-group sigemptyset sig o in
    let removed = del_all-group sigfillset sig o in
    (
      (λ h. to (ground (arith, added)), λ e. ground (arith, added, from e)),
      (λ h. to (ground (arith, removed)), λ e. ground (arith, removed, from e)),
    )
