-- ===== src/Waits.antt =====
-- How long the system is asked to wait for a deadline: `_yoi_poll_wrapper` of src/unix/poll.c, in both of its builds,
-- `yo_cond_timewait` of src/utils/multithread.h on Windows, and `yo_timesleep` of src/unix/impl.c, which starts its
-- sleep again with what a signal left of it.
pub mod Enough
pub mod Restarts
mod Tests
use libyaooi.Prelude.{
  ℕ, ◌+◌, ◌-◌, ◌%◌, ◌^◌, Bool, true, false, Option, none, some, List, [], ◌∷◌, if◌then◌else◌, ltb,
}
use libyaooi.Prelude.Int.{ℤ, pos, negsuc, ltb_ℤ}
use libyaooi.Time.{Time, timesub, timems}
use libyaooi.Errno.Os.{Errno}

-- What ppoll is given on Linux.
unfoldable pub ppoll_wait : (deadline now : Time) → Time
ppoll_wait deadline now =
    let diff = timesub deadline now in
    if ltb_ℤ diff.sec (pos 0) then record { sec = pos 0; nsec = 0 } else diff

-- The milliseconds elsewhere, before they are converted for the system's call.
unfoldable pub wait_ms : (deadline now : Time) → ℤ
wait_ms deadline now =
    let ms = timems (timesub deadline now) in if ltb_ℤ ms (pos 0) then pos 0 else ms

-- The conversion of an int64_t to a DWORD, and to an int of 32 bits.
abbrev pub dword_of : ℤ → ℕ
dword_of (pos n) = n % 2 ^ 32
dword_of (negsuc n) = 2 ^ 32 - 1 - n % 2 ^ 32

abbrev pub int_of : ℤ → ℤ
int_of a = if ltb (dword_of a) (2 ^ 31) then pos (dword_of a) else negsuc (2 ^ 32 - 1 - dword_of a)

-- What poll and SleepConditionVariableCS are given.
unfoldable pub poll_ms : (deadline now : Time) → ℤ
poll_ms deadline now = int_of (wait_ms deadline now)

unfoldable pub cond_ms : (deadline now : Time) → ℕ
cond_ms deadline now = dword_of (wait_ms deadline now)

-- What `yo_timesleep` of src/win/impl.c gives to Sleep.
unfoldable pub sleep_ms : (until now : Time) → ℕ
sleep_ms until now = dword_of (timems (timesub until now))

-- What a call of poll or ppoll answers.
pub data Polled : Type 0 where
  ready : ℕ → Polled
  fails : Errno → Polled

-- `errno == EINTR || errno == EAGAIN`
abbrev pub is_again : Errno → Bool
is_again Errno.eintr = true
is_again Errno.eagain = true
is_again _ = false

pub data Waited : Type 0 where
  returned : ℕ → Waited
  aborted : Waited
  unanswered : Waited

-- The loop of `_yoi_poll_wrapper`, over what the calls answer. With NDEBUG, the assertion would be left out, and the
-- loop would return -1.
unfoldable pub poll_wrapper : List Polled → Waited
poll_wrapper [] = unanswered
poll_wrapper (ready n ∷ answers) = returned n
poll_wrapper (fails e ∷ answers) =
    let rest = poll_wrapper answers in if is_again e then rest else aborted

-- What nanosleep answers: it slept, or the errno of its failure, with the nanoseconds that remain.
pub data Slept : Type 0 where
  slept : Slept
  stopped : Errno → ℕ → Slept

abbrev pub is_eintr : Errno → Bool
is_eintr Errno.eintr = true
is_eintr _ = false

-- The loop of `yo_timesleep` of src/unix/impl.c, where its time is not past: the nanoseconds that nanosleep is asked
-- for, each with its answer.
unfoldable pub timesleep : ℕ → List Slept → List (ℕ × Slept)
timesleep request [] = []
timesleep request (slept ∷ answers) = (request, slept) ∷ []
timesleep request (stopped e remaining ∷ answers) =
    let rest = timesleep remaining answers in
    if is_eintr e
    then (request, stopped e remaining) ∷ rest
    else (request, stopped e remaining) ∷ []
