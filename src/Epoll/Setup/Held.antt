-- ===== src/Epoll/Setup/Held.antt =====
-- The descriptors that a queue holds.
use libyaooi.Prelude.{ℕ, ◌+◌, ◌≡◌, refl, Option, none, some, arith, one, count, ◌⊎◌, inl, inr}
use libyaooi.Socket.{Answer, done, fails, all_done}
use libyaooi.Spawn.{Ledger}
use libyaooi.Epoll.Setup.{
  Setup, on_flags, pl_init, PipeAnswers, pl_init_with, QueueFds, on_pl, on_ctl, on_epoll,
  queue_init, on_new_pl, queue_free,
}

abbrev pub of_pipe : ℕ → ℕ × ℕ → ℕ
of_pipe n p = one n p.0 + one n p.1

abbrev pub of_queue : ℕ → QueueFds → ℕ
of_queue n q = one n q.timer_fd + one n q.epoll_fd + of_pipe n q.notify

-- `w` descriptors of number `n` are open.
abbrev pub Open : ℕ → ℕ → Ledger → Type 0
Open n w l = count n l.opened ≡ count n l.closed + w

abbrev pub kept : {A : Type 0} → (A → ℕ) → Option A → ℕ
kept of none = 0
kept of (some a) = of a

-- What was made is open, and beyond it `w` descriptors as before.
abbrev pub Held : {A : Type 0} → ℕ → (A → ℕ) → ℕ → Setup A → Type 0
Held n of w s = Open n (kept of s.made + w) s.ledger

module _ (n : ℕ) where
  on_flags-Held :
      (r : Answer Unit) (p : ℕ × ℕ) (w : ℕ) (l : Ledger)
      → Open n (of_pipe n p + w) l
      → Held n (of_pipe n) w (on_flags r p l)
  on_flags-Held (fails e) p w l h = omega arith
  on_flags-Held (done _) p w l h = h

  pl_init-Held :
      (r : Answer (ℕ × ℕ)) (a b c : Answer Unit) (w : ℕ) (l : Ledger)
      → Open n w l
      → Held n (of_pipe n) w (pl_init r a b c l)
  unfolding pl_init
  pl_init-Held (fails e) a b c w l h = omega arith
  pl_init-Held (done p) a b c w l h = on_flags-Held (all_done a b c) p w _ (omega arith)

  on_pl-Held :
      (t ep w : ℕ) (s : Setup (ℕ × ℕ)) (m : Option (ℕ × ℕ))
      → Open n (kept (of_pipe n) m + (one n t + one n ep + w)) s.ledger
      → Held n (of_queue n) w (on_pl t ep (record s { made = m }))
  on_pl-Held t ep w s none h = omega arith
  on_pl-Held t ep w s (some p) h = omega arith

  on_ctl-Held :
      (r : Answer Unit) (a : PipeAnswers) (t ep w : ℕ) (l : Ledger)
      → Open n (one n t + one n ep + w) l
      → Held n (of_queue n) w (on_ctl r a t ep l)
  on_ctl-Held (fails e) a t ep w l h = omega arith
  on_ctl-Held (done _) a t ep w l h =
      let s = pl_init_with a l in
      on_pl-Held t ep w s s.made
        (pl_init-Held a.pipe a.nonblock_read a.nonblock_write a.masked _ l h)

  on_epoll-Held :
      (r : Answer ℕ) (c : Answer Unit) (a : PipeAnswers) (t w : ℕ) (l : Ledger)
      → Open n (one n t + w) l
      → Held n (of_queue n) w (on_epoll r c a t l)
  on_epoll-Held (fails e) c a t w l h = omega arith
  on_epoll-Held (done ep) c a t w l h = on_ctl-Held c a t ep w _ (omega arith)

-- Whichever of its calls fails, `yoi_queue_impl_init` of the epoll backend leaves open what was open before, and
-- beyond it the timer, the epoll instance and the two ends of the notification pipe where it succeeds,
-- and nothing where it fails.
pub queue_init-Held :
    (n : ℕ) (timer epoll : Answer ℕ) (ctl : Answer Unit) (a : PipeAnswers) (w : ℕ) (l : Ledger)
    → Open n w l
    → Held n (of_queue n) w (queue_init timer epoll ctl a l)
unfolding queue_init
queue_init-Held n (fails e) epoll ctl a w l h = omega arith
queue_init-Held n (done t) epoll ctl a w l h = on_epoll-Held n epoll ctl a t w _ (omega arith)

on_new_pl-Open :
    (n : ℕ) (q : QueueFds) (w : ℕ) (s : Setup (ℕ × ℕ)) (m : Option (ℕ × ℕ))
    → Open n (kept (of_pipe n) m + (of_queue n q + w)) s.ledger
    → (((on_new_pl q (record s { made = m })).made ≡ none)
        × Open n (of_queue n q + w) (on_new_pl q (record s { made = m })).ledger)
      ⊎ ((p : ℕ × ℕ) × ((on_new_pl q (record s { made = m })).made ≡ some p)
          × Open n
              (of_pipe n q.notify + of_pipe n p + w)
              (on_new_pl q (record s { made = m })).ledger)
on_new_pl-Open n q w s none h = inl (refl, omega arith)
on_new_pl-Open n q w s (some p) h = inr (p, refl, omega arith)

-- `yoi_queue_impl_free` of the epoll backend leaves the notification pipe of the queue open and a second one with it;
-- where it cannot make the second one, it leaves everything open that the queue has.
pub queue_free-Open :
    (n : ℕ) (a : PipeAnswers) (q : QueueFds) (w : ℕ) (l : Ledger)
    → Open n (of_queue n q + w) l
    → (((queue_free a q l).made ≡ none) × Open n (of_queue n q + w) (queue_free a q l).ledger)
      ⊎ ((p : ℕ × ℕ) × ((queue_free a q l).made ≡ some p)
          × Open n (of_pipe n q.notify + of_pipe n p + w) (queue_free a q l).ledger)
unfolding queue_free
queue_free-Open n a q w l h =
    let s = pl_init_with a l in
    on_new_pl-Open n q w s s.made
      (pl_init-Held n a.pipe a.nonblock_read a.nonblock_write a.masked _ l h)
