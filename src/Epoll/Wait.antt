-- ===== src/Epoll/Wait.antt =====
-- `yoi_pl_impl_poll` of src/unix/epoll.c: what it makes of the event that epoll_wait gives. The wait is made again
-- where it is interrupted, so the event is that of the last call; none is no event.
use libyaooi.Prelude.{
  ℕ, ◌+◌, ◌%◌, ◌^◌, ◌≡◌, ◌≢◌, refl, Bool-cases, ◌||◌, ◌⊎◌, inl, inr, Option, none, some, ◌==◌,
  if◌then◌else◌, arith, ==→eq,
}
use libyaooi.Prelude.Int.{pos, ltb_ℤ}
use libyaooi.Errno.{Code}
use libyaooi.Time.{Time, timecmp}
use libyaooi.Pollish.{readable, writable}
use libyaooi.Epoll.{Evn}

abbrev pub ready_of : Evn → ℕ
ready_of e =
    (if e.rdhup || e.err || e.hup || e.input then readable else 0)
    + (if e.rdhup || e.err || e.hup || e.output then writable else 0)

-- `evn.data.fd` is the lower half of the data on a little-endian machine.
abbrev pub data_fd : Evn → ℕ
data_fd e = e.ptr % 2 ^ 32

-- What the code compares an event with, and what it gives: the data and the mask, with the code.
unfoldable pub on_event : (timer_fd : ℕ) → Option Evn → Code × Option (ℕ × ℕ)
on_event timer_fd none = (Code.etimeout, none)
on_event timer_fd (some e) =
    if data_fd e == timer_fd then (Code.etimeout, none) else (Code.ok, some (e.ptr, ready_of e))

-- A deadline that has passed ends the call before the wait.
unfoldable pub impl_poll :
    (deadline : Option Time) → (now : Time) → ℕ → Option Evn → Code × Option (ℕ × ℕ)
impl_poll none now timer_fd event = on_event timer_fd event
impl_poll (some deadline) now timer_fd event =
    if ltb_ℤ (pos 0) (timecmp now deadline) then (Code.etimeout, none) else on_event timer_fd event

-- An event of a descriptor is given with its data and what it is ready for exactly where the lower half of its
-- data is not the number of the timer; an event of a descriptor whose data ends in that number is taken for
-- the timer and lost.
pub on_event_lem :
    (timer_fd : ℕ) (e : Evn)
    → ((e.ptr % 2 ^ 32 ≢ timer_fd)
        × (on_event timer_fd (some e) ≡ (Code.ok, some (e.ptr, ready_of e))))
      ⊎ ((e.ptr % 2 ^ 32 ≡ timer_fd) × (on_event timer_fd (some e) ≡ (Code.etimeout, none)))
unfolding on_event
on_event_lem timer_fd e = elim (Bool-cases (data_fd e == timer_fd)) [
  | inl h ↦ inr (==→eq _ _ h, rw h refl)
  | inr h ↦ inl (ground arith, rw h refl)
]
