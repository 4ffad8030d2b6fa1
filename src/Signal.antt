-- ===== src/Signal.antt =====
-- The signal functions of src/unix/impl.c: `yoi_unix_conv_signal`, `yo_sig_on`, `yo_sig_off` and
-- `yo_sig_wait`, with the static state that they share.
pub mod Names
pub mod Counts
pub mod Masks
pub mod Balance
pub mod Wait
mod Tests
use libyaooi.Prelude.{
  ℕ, ◌+◌, ◌-◌, ◌%◌, ◌^◌, Bool, true, false, not, ◌||◌, Option, none, some, List, [], ◌∷◌, ◌==◌,
  if◌then◌else◌,
}
use libyaooi.Errno.{Code}
use libyaooi.Errno.Os.{Errno}
use libyaooi.Errno.Unix.{conv_errno}
use libyaooi.Signal.Names.{Signo, signo_index, OsSignal, os_index, group, conv_signal}

-- A `sigset_t`.
abbrev pub Sigset : Type 0
Sigset = OsSignal → Bool

abbrev pub sigemptyset : Sigset
sigemptyset o = false

abbrev pub sigfillset : Sigset
sigfillset o = true

abbrev pub sigaddset : Sigset → OsSignal → Sigset
sigaddset s x o = (os_index o == os_index x) || s o

abbrev pub sigdelset : Sigset → OsSignal → Sigset
sigdelset s x o = if os_index o == os_index x then false else s o

-- The calls of one case of the two switches.
abbrev pub add_all : Sigset → List OsSignal → Sigset
add_all s [] = s
add_all s (x ∷ xs) = add_all (sigaddset s x) xs

abbrev pub del_all : Sigset → List OsSignal → Sigset
del_all s [] = s
del_all s (x ∷ xs) = del_all (sigdelset s x) xs

-- `_core_sig_init`, `_core_sig_counts`, `_core_sig_set` and the signal mask of the calling thread.
-- The mutex is held from the first access of a call to the last.
pub record Core : Type 0 where
  pub init : Bool
  pub counts : Signo → ℕ
  pub set : Sigset
  pub blocked : Sigset

abbrev pub update : (Signo → ℕ) → Signo → ℕ → Signo → ℕ
update f s n t = if signo_index t == signo_index s then n else f t

-- `_yoi_sig_init`
pub sig_init : Core → Core
sig_init c = if c.init then c else record c { init = true; counts = λ _. 0; set = sigemptyset }

-- What `yo_setmask` does: it sets the mask; it fails as pthread_sigmask does, which returns its error number, a positive one that
-- the tests of its callers take for success; or it fails as sigprocmask does, with -1 and the error number in `errno`.
pub data Setmask : Type 0 where
  accepted : Setmask
  unseen : Errno → Setmask
  refused : Errno → Setmask

-- `return yoi_unix_conv_errno(errno)`; none is the failed assertion.
abbrev pub Reply : Type 0
Reply = Option Code × Core

install : Setmask → Core → Sigset → (Core → Core) → Reply
install accepted c set count = (some Code.ok, count (record c { set = set; blocked = set }))
install (unseen e) c set count = (some Code.ok, count (record c { set = set; blocked = c.blocked }))
install (refused e) c set count = (conv_errno e, c)

unfoldable pub sig_on : Setmask → Signo → Core → Reply
unfolding sig_init install
sig_on os sig c0 =
    let c : Core = sig_init c0 in
    let count : Core → Core =
      λ (d : Core). record d { counts = update d.counts sig ((d.counts sig + 1) % 2 ^ 64) } in
    if c.counts sig == 0
    then install os c (add_all c.set (group sig)) count
    else (some Code.ok, count c)

unfoldable pub sig_off : Setmask → Signo → Core → Reply
unfolding sig_init install
sig_off os sig c0 =
    let c : Core = sig_init c0 in
    let count : Core → Core = λ (d : Core).
      if d.counts sig == 0
      then d
      else record d { counts = update d.counts sig (d.counts sig - 1) } in
    if c.counts sig == 1
    then install os c (del_all c.set (group sig)) count
    else (some Code.ok, count c)
