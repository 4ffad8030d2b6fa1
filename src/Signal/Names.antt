-- ===== src/Signal/Names.antt =====
-- The logical signals of inc/yaooi/signo.h, the signals of the system that stand for them, and the
-- conversion between the two in src/unix/impl.c.
use libyaooi.Prelude.{ℕ, ◌+◌, Option, none, some, List, [], ◌∷◌}

-- `yo_signo_t`
pub data Signo : Type 0 where
  int quit abrt term : Signo
  badmem badop badpipe : Signo
  tsize tlost usr1 usr2 : Signo

-- The value of the enumeration, which indexes `_core_sig_counts`.
unfoldable pub signo_index : Signo → ℕ
signo_index int = 0
signo_index quit = 1
signo_index abrt = 2
signo_index term = 3
signo_index badmem = 4
signo_index badop = 5
signo_index badpipe = 6
signo_index tsize = 7
signo_index tlost = 8
signo_index usr1 = 9
signo_index usr2 = 10

-- The signals of <signal.h> that the source names; `other` is any further one.
pub data OsSignal : Type 0 where
  sighup sigint sigquit sigill sigabrt sigbus sigfpe : OsSignal
  sigusr1 sigsegv sigusr2 sigpipe sigterm sigstkflt sigwinch sigsys sigpwr : OsSignal
  other : ℕ → OsSignal

-- A number for each, to tell them apart.
unfoldable pub os_index : OsSignal → ℕ
os_index sighup = 0
os_index sigint = 1
os_index sigquit = 2
os_index sigill = 3
os_index sigabrt = 4
os_index sigbus = 5
os_index sigfpe = 6
os_index sigusr1 = 7
os_index sigsegv = 8
os_index sigusr2 = 9
os_index sigpipe = 10
os_index sigterm = 11
os_index sigstkflt = 12
os_index sigwinch = 13
os_index sigsys = 14
os_index sigpwr = 15
os_index (other n) = 16 + n

-- `yoi_unix_conv_signal`; none is -1.
unfoldable pub conv_signal : OsSignal → Option Signo
conv_signal sighup = some tlost
conv_signal sigint = some int
conv_signal sigquit = some quit
conv_signal sigill = some badop
conv_signal sigabrt = some abrt
conv_signal sigbus = some badmem
conv_signal sigfpe = some badop
conv_signal sigusr1 = some usr1
conv_signal sigsegv = some badmem
conv_signal sigusr2 = some usr2
conv_signal sigpipe = some badpipe
conv_signal sigterm = some term
conv_signal sigstkflt = some badmem
conv_signal sigwinch = some tsize
conv_signal sigsys = some badop
conv_signal _ = none

-- The signals that the switch of `yo_sig_on` adds, which are those that `yo_sig_off` removes.
unfoldable pub group : Signo → List OsSignal
group int = sigint ∷ []
group quit = sigquit ∷ []
group abrt = sigabrt ∷ []
group term = sigterm ∷ []
group badmem = sigsegv ∷ sigbus ∷ sigstkflt ∷ []
group badop = sigill ∷ sigfpe ∷ sigsys ∷ []
group badpipe = sigpipe ∷ []
group tsize = sigwinch ∷ []
group tlost = sighup ∷ []
group usr1 = sigusr1 ∷ []
group usr2 = sigusr2 ∷ []
