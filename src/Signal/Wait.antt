-- ===== src/Signal/Wait.antt =====
-- `yo_sig_wait` of src/unix/impl.c. What `sigwait` returns is a list of events; the call blocks where
-- the list ends.
pub mod First
use libyaooi.Prelude.{Option, none, some, List, [], ◌∷◌, ◌||◌}
use libyaooi.Errno.{Code}
use libyaooi.Errno.Os.{Errno}
use libyaooi.Errno.Unix.{conv_errno}
use libyaooi.Signal.{
  Sigset, sigemptyset, sigaddset, Core, sig_init, Setmask, accepted, unseen, refused,
}
use libyaooi.Signal.Names.{Signo, OsSignal, conv_signal}

-- `sigwait` fails with an error number, or stores a signal.
pub data Event : Type 0 where
  failed : Errno → Event
  got : OsSignal → Event

-- What a call returns, what it stores in `pres` if anything, and the state behind it.
pub record Waited : Type 0 where
  pub code : Option Code
  pub pres : Option Signo
  pub core : Core

-- `yo_setmask(SIG_SETMASK, &old, NULL)` on the way out.
pub restore : Sigset → Core → Core
restore old c = record c { blocked = old }

-- `switch (res)`: SIGPWR is the thread's cancellation, and a signal with no logical signal is passed
-- over. none goes on with the loop.
signal_end : OsSignal → Sigset → Core → Option Waited
unfolding restore
signal_end OsSignal.sigpwr old c =
    some (record { code = some Code.ecanceled; pres = none; core = restore old c })
signal_end o old c = elim (conv_signal o) [
  | none ↦ none
  | some sig ↦ some (record { code = some Code.ok; pres = some sig; core = restore old c })
]

-- The loop; none is a call that still blocks.
pub wait_loop : List Event → Sigset → Core → Option Waited
unfolding signal_end
wait_loop [] old c = none
wait_loop (failed e ∷ events) old c =
    some (record { code = conv_errno e; pres = none; core = restore old c })
wait_loop (got o ∷ events) old c = elim (signal_end o old c) [
  | some w ↦ some w
  | none ↦ wait_loop events old c
]

-- `old` is a variable that is not set where pthread_sigmask fails unseen: `stack` is what it holds.
unfoldable pub sig_wait : Setmask → (stack : Sigset) → List Event → Core → Option Waited
unfolding wait_loop
sig_wait (refused e) stack events c0 =
    some (record { code = conv_errno e; pres = none; core = sig_init c0 })
sig_wait (unseen e) stack events c0 = wait_loop events stack (sig_init c0)
sig_wait accepted stack events c0 =
    let c : Core = sig_init c0 in
    let blocking : Sigset = λ o. sigaddset sigemptyset OsSignal.sigpwr o || c.blocked o in
    wait_loop events c.blocked (record c { blocked = blocking })
