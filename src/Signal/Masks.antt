-- ===== src/Signal/Masks.antt =====
-- The signal mask of the thread behind `yo_sig_off` of src/unix/impl.c.
use libyaooi.Prelude.{
  ◌-◌, ◌≡◌, inl, inr, refl, sym, ap, ◌∙◌, true, some, ◌==◌, if◌then◌else◌, Bool-cases,
}
use libyaooi.Errno.{Code}
use libyaooi.Errno.Os.{Errno}
use libyaooi.Signal.Names.{Signo, OsSignal, group}
use libyaooi.Signal.{
  Sigset, del_all, Core, update, sig_init, Setmask, accepted, unseen, refused, install, sig_off,
}
use libyaooi.Signal.Counts.{IsValid, sig_init-init, sig_off-IsValid}

-- The mask of the thread is the set, and is empty before the first call.
abbrev pub Masked : Core → Type 0
Masked c = (o : OsSignal) → c.blocked o ≡ (sig_init c).set o

-- The call fails with -1, if it fails.
abbrev pub Seen : Setmask → Type 0
Seen accepted = Unit
Seen (unseen e) = ⊥
Seen (refused e) = Unit

sig_init-blocked : (c : Core) → (sig_init c).blocked ≡ c.blocked
unfolding sig_init
sig_init-blocked c = elim (Bool-cases c.init) [ inl old ↦ simp old | inr new ↦ simp new ]

abbrev Agrees : Core → Type 0
Agrees d = (o : OsSignal) → d.blocked o ≡ d.set o

Masked-Agrees : (d : Core) → d.init ≡ true → Agrees d → Masked d
unfolding sig_init
Masked-Agrees d ini h o = h o ∙ rw ini refl

sig_init-Agrees : (c : Core) → Masked c → Agrees (sig_init c)
sig_init-Agrees c m o = ap (λ b. b o) (sig_init-blocked c) ∙ m o

-- Behind either switch, where `count` changes the counts only.
abbrev Keeps : (Core → Core) → Type 0
Keeps count =
    (d : Core)
    → ((count d).blocked ≡ d.blocked) × ((count d).set ≡ d.set) × ((count d).init ≡ d.init)

install-Masked :
    (os : Setmask) (d : Core) (set : Sigset) (count : Core → Core)
    → d.init ≡ true
    → Keeps count
    → Agrees d
    → Seen os
    → Masked (install os d set count).1
unfolding install
install-Masked accepted d set count ini k m s =
    let (b, t, i) = k (record d { set = set; blocked = set }) in
    Masked-Agrees _ (i ∙ ini) (λ o. ap (λ u. u o) b ∙ ap (λ u. u o) (sym t))
install-Masked (unseen e) d set count ini k m s = absurd s
install-Masked (refused e) d set count ini k m s = Masked-Agrees d ini m

install-unseen :
    (e : Errno) (d : Core) (set : Sigset) (count : Core → Core)
    → Keeps count
    → ((install (unseen e) d set count).0 ≡ some Code.ok)
      × ((install (unseen e) d set count).1.blocked ≡ d.blocked)
unfolding install
install-unseen e d set count k = (refl, (k (record d { set = set; blocked = d.blocked })).0)

-- What `yo_sig_off` makes of the count.
abbrev lowered : Signo → Core → Core
lowered sig d =
    if d.counts sig == 0 then d else record d { counts = update d.counts sig (d.counts sig - 1) }

lowered-Keeps : (sig : Signo) → Keeps (lowered sig)
lowered-Keeps sig d = elim (Bool-cases (d.counts sig == 0)) [
  | inl zero ↦ rw zero (refl, refl, refl)
  | inr more ↦ rw more (refl, refl, refl)
]

sig_off-Masked :
    (os : Setmask) (sig : Signo) (c : Core) → Masked c → Seen os → Masked (sig_off os sig c).1
unfolding sig_off
sig_off-Masked os sig c m s =
    let d : Core = sig_init c in
    let agrees = sig_init-Agrees c m in
    let ini : d.init ≡ true = sig_init-init c in
    let (b, t, i) = lowered-Keeps sig d in
    elim (Bool-cases (d.counts sig == 1)) [
      | inl one ↦ rw one (
          install-Masked os d (del_all d.set (group sig)) (lowered sig) ini (lowered-Keeps sig)
            agrees s)
      | inr other ↦ rw other (
          Masked-Agrees (lowered sig d) (i ∙ ini)
            (λ o. ap (λ u. u o) b ∙ agrees o ∙ ap (λ u. u o) (sym t)))
    ]

sig_off-unseen :
    (e : Errno) (sig : Signo) (c : Core)
    → ((sig_off (unseen e) sig c).0 ≡ some Code.ok)
      × ((sig_off (unseen e) sig c).1.blocked ≡ c.blocked)
unfolding sig_off
sig_off-unseen e sig c =
    let d : Core = sig_init c in
    elim (Bool-cases (d.counts sig == 1)) [
      | inl one ↦
          let (ok, b) =
            install-unseen e d (del_all d.set (group sig)) (lowered sig) (lowered-Keeps sig) in
          rw one (ok, b ∙ sig_init-blocked c)
      | inr other ↦ rw other (refl, (lowered-Keeps sig d).0 ∙ sig_init-blocked c)
    ]

-- `yo_sig_off` keeps the set right, whatever the system makes of the new mask. The mask of the thread, if it was the set, and empty
-- before the first call, is the set behind it too, unless pthread_sigmask fails with a positive number: then the call returns YO_OK
-- and the mask is as it was.
pub sig_off_lem :
    (os : Setmask) (sig : Signo) (c : Core)
    → IsValid c
    → Masked c
    → IsValid (sig_off os sig c).1
      × (Seen os → Masked (sig_off os sig c).1)
      × ((e : Errno)
          → os ≡ unseen e
          → ((sig_off os sig c).0 ≡ some Code.ok) × ((sig_off os sig c).1.blocked ≡ c.blocked))
sig_off_lem os sig c v m =
    (sig_off-IsValid os sig c v, sig_off-Masked os sig c m, λ e h. rw h (sig_off-unseen e sig c))
