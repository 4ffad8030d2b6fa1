-- ===== src/Epoll/Setup.antt =====
-- The descriptors of a queue: `yoi_pl_init` of src/unix/pollish.c, and `yoi_queue_impl_init` and
-- `yoi_queue_impl_free` of src/unix/epoll.c. What the system answers is an argument.
pub mod Held
use libyaooi.Prelude.{ℕ, ◌+◌, ◌≡◌, refl, Option, none, some, List, [], ◌∷◌, arith, one, count}
use libyaooi.Errno.{Code}
use libyaooi.Errno.Os.{Errno}
use libyaooi.Errno.Unix.{conv_errno}
use libyaooi.Socket.{Answer, done, fails, all_done}
use libyaooi.Spawn.{Ledger, set_errno, opens, close}

-- A code, what was set up, and what was opened and closed.
pub record Setup (A : Type 0) : Type 0 where
  pub code : Option Code
  pub made : Option A
  pub ledger : Ledger

module _ {A : Type 0} where
  abbrev pub refused : Ledger → Setup A
  refused l = record { code = conv_errno l.errno; made = none; ledger = l }

  abbrev pub set_up : A → Ledger → Setup A
  set_up a l = record { code = some Code.ok; made = some a; ledger = l }

-- `close` of a descriptor that is open.
abbrev pub closes : ℕ → Ledger → Ledger
closes fd l = close (some fd) l

-- `yoi_pl_init`: the read end and the write end of the notification pipe. `masked` is the answer of
-- `yoi_pl_impl_setmask`, with the errno that it leaves where it fails.
abbrev pub on_flags : Answer Unit → ℕ × ℕ → Ledger → Setup (ℕ × ℕ)
on_flags (fails e) p l = refused (closes p.1 (closes p.0 (set_errno e l)))
on_flags (done _) p l = set_up p l

unfoldable pub pl_init :
    Answer (ℕ × ℕ) → (nonblock_read nonblock_write masked : Answer Unit) → Ledger → Setup (ℕ × ℕ)
pl_init (fails e) nonblock_read nonblock_write masked l = refused (set_errno e l)
pl_init (done p) nonblock_read nonblock_write masked l =
    on_flags (all_done nonblock_read nonblock_write masked) p (opens p.0 (opens p.1 l))

-- `yoi_pl_free`
abbrev pub pl_free : ℕ × ℕ → Ledger → Ledger
pl_free p l = closes p.1 (closes p.0 l)

-- What the system answers to the calls of `yoi_pl_init`.
pub record PipeAnswers : Type 0 where
  pub pipe : Answer (ℕ × ℕ)
  pub nonblock_read : Answer Unit
  pub nonblock_write : Answer Unit
  pub masked : Answer Unit

abbrev pub pl_init_with : PipeAnswers → Ledger → Setup (ℕ × ℕ)
pl_init_with a l = pl_init a.pipe a.nonblock_read a.nonblock_write a.masked l

-- The timer, the epoll instance and the notification pipe of a queue.
pub record QueueFds : Type 0 where
  pub timer_fd : ℕ
  pub epoll_fd : ℕ
  pub notify : ℕ × ℕ

-- `yoi_queue_impl_init`, behind `yoi_pl_init`.
abbrev pub on_pl : ℕ → ℕ → Setup (ℕ × ℕ) → Setup QueueFds
on_pl timer epoll s = elim s.made [
  | none ↦ refused (closes timer (closes epoll s.ledger))
  | some p ↦ set_up (record { timer_fd = timer; epoll_fd = epoll; notify = p }) s.ledger
]

abbrev pub on_ctl : Answer Unit → PipeAnswers → ℕ → ℕ → Ledger → Setup QueueFds
on_ctl (fails e) a timer epoll l = refused (closes timer (closes epoll (set_errno e l)))
on_ctl (done _) a timer epoll l = on_pl timer epoll (pl_init_with a l)

abbrev pub on_epoll : Answer ℕ → Answer Unit → PipeAnswers → ℕ → Ledger → Setup QueueFds
on_epoll (fails e) ctl a timer l = refused (closes timer (set_errno e l))
on_epoll (done epoll) ctl a timer l = on_ctl ctl a timer epoll (opens epoll l)

unfoldable pub queue_init :
    (timer epoll : Answer ℕ) → (ctl : Answer Unit) → PipeAnswers → Ledger → Setup QueueFds
queue_init (fails e) epoll ctl a l = refused (set_errno e l)
queue_init (done t) epoll ctl a l = on_epoll epoll ctl a t (opens t l)

-- `yoi_queue_impl_free`, which calls `yoi_pl_init`. `made` holds the new notification pipe.
abbrev pub on_new_pl : QueueFds → Setup (ℕ × ℕ) → Setup (ℕ × ℕ)
on_new_pl q s = elim s.made [
  | none ↦ s
  | some p ↦ set_up p (closes q.timer_fd (closes q.epoll_fd s.ledger))
]

unfoldable pub queue_free : PipeAnswers → QueueFds → Ledger → Setup (ℕ × ℕ)
queue_free a q l = on_new_pl q (pl_init_with a l)
