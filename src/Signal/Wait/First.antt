-- ===== src/Signal/Wait/First.antt =====
-- `sig_wait` answers the first event that has a meaning, and gives the thread its mask back.
use libyaooi.Prelude.{◌≡◌, refl, ◌∙◌, Option, none, some, List, [], ◌∷◌, ◌++◌, All, arith}
use libyaooi.Errno.{Code}
use libyaooi.Errno.Unix.{conv_errno}
use libyaooi.Signal.{accepted, Sigset, Core, sig_init}
use libyaooi.Signal.Names.{Signo, OsSignal, conv_signal}
use libyaooi.Signal.Wait.{Event, failed, got, restore, wait_loop, sig_wait}

-- The answer that an event calls for: a code and a signal to store. none is an event without meaning.
abbrev pub answer : Event → Option (Option Code × Option Signo)
answer (failed e) = some (conv_errno e, none)
answer (got OsSignal.sigpwr) = some (some Code.ecanceled, none)
answer (got o) = elim (conv_signal o) [ none ↦ none | some sig ↦ some (some Code.ok, some sig) ]

wait_loop-skips :
    (skipped : List Event) (rest : List Event) (old : Sigset) (c : Core)
    → All (λ e. answer e ≡ none) skipped
    → wait_loop (skipped ++ rest) old c ≡ wait_loop rest old c
unfolding wait_loop conv_signal
wait_loop-skips [] rest old c h = refl
wait_loop-skips (failed e ∷ es) rest old c h = absurd (cc)
wait_loop-skips (got (OsSignal.other n) ∷ es) rest old c h = wait_loop-skips es rest old c h.1
wait_loop-skips (got o ∷ es) rest old c h = absurd (cc (h.0))

wait_loop-answer :
    (e : Event) (rest : List Event) (old : Sigset) (c : Core) {code : Option Code}
    {sig : Option Signo}
    → answer e ≡ some (code, sig)
    → wait_loop (e ∷ rest) old c ≡ some (record { code = code; pres = sig; core = restore old c })
unfolding wait_loop conv_signal
wait_loop-answer (failed e) rest old c h = ground arith
wait_loop-answer (got OsSignal.sighup) rest old c h = ground arith
wait_loop-answer (got o) rest old c h = ground arith

-- If the signal mask can be set, `yo_sig_wait` passes over the signals that stand for no logical signal
-- and answers the first event that remains: an error of `sigwait`, SIGPWR by YO_ECANCELED, or a
-- signal, which it converts and stores. The thread's mask is then what it was before the call.
pub sig_wait_first :
    (skipped : List Event) (e : Event) (rest : List Event) (stack : Sigset) (c : Core)
    {code : Option Code} {sig : Option Signo}
    → All (λ e. answer e ≡ none) skipped
    → answer e ≡ some (code, sig)
    → sig_wait accepted stack (skipped ++ e ∷ rest) c
      ≡ some (record { code = code; pres = sig; core = sig_init c })
unfolding sig_wait restore
sig_wait_first skipped e rest stack c h a =
    wait_loop-skips skipped (e ∷ rest) _ _ h ∙ wait_loop-answer e rest _ _ a
