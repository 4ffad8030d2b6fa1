-- ===== src/Signal/Tests.antt =====
-- Runs of the signal functions, and their theorems at concrete states.
use libyaooi.Prelude.{false, ◌≡◌, refl, true, false, some}
use libyaooi.Errno.{Code}
use libyaooi.Errno.Os.{Errno}
use libyaooi.Errno.Unix.{conv_errno}
use libyaooi.Signal.{accepted, unseen, refused, sig_init, Core, sigemptyset, sig_on, sig_off}
use libyaooi.Signal.Names.{Signo, OsSignal, os_index, conv_signal, group}
use libyaooi.Signal.Counts.{IsValid, active}
use libyaooi.Signal.Masks.{Masked, Seen, sig_off_lem}

abbrev cold : Core
cold = record { init = false; counts = λ _. 0; set = sigemptyset; blocked = sigemptyset }

cold-IsValid : IsValid cold
unfolding active conv_signal
cold-IsValid = record { matches = all; fresh = λ e s. refl }
  where
    all : (o : OsSignal) → false ≡ active (λ _. 0) (conv_signal o)
    all OsSignal.sighup = refl
    all o = refl

bad_memory_blocks_bus : (sig_on accepted Signo.badmem cold).1.set OsSignal.sigbus ≡ true
unfolding sig_on group os_index
bad_memory_blocks_bus = refl

refused_mask : (sig_on (refused Errno.eperm) Signo.int cold).0 ≡ some Code.eperm
unfolding sig_on conv_errno
refused_mask = refl

cold-Masked : Masked cold
unfolding sig_init
cold-Masked o = refl

sig_off_lem_example :
    IsValid (sig_off accepted Signo.badop cold).1
    × (Seen accepted → Masked (sig_off accepted Signo.badop cold).1)
    × ((e : Errno)
        → accepted ≡ unseen e
        → ((sig_off accepted Signo.badop cold).0 ≡ some Code.ok)
          × ((sig_off accepted Signo.badop cold).1.blocked ≡ cold.blocked))
sig_off_lem_example = sig_off_lem accepted Signo.badop cold cold-IsValid cold-Masked
