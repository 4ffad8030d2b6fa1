-- ===== src/Fallback/Poll.antt =====
-- `yo_queue_poll` of src/fallback/queue.c. With threads, the poller takes the lock of the queue twice in a round: in
-- `yoi_queue_pop`, and for the wait; what other threads do happens before, between and behind these. Without
-- threads, it reads the clock in each round.
pub mod Wakeups
pub mod Spin
mod Tests
use libyaooi.Prelude.{ℕ, Bool, true, false, Option, none, some, List, [], ◌∷◌, if◌then◌else◌}
use libyaooi.Prelude.Int.{ℤ, pos, ltb_ℤ}
use libyaooi.Errno.{Code}
use libyaooi.Time.{Time, timecmp}

-- Where the poller is: before `yoi_queue_pop`; behind it, where it gave NULL; in the wait; or behind the call, with
-- the request that it gives.
pub data Phase : Type 0 where
  testing : Phase
  missed : Phase
  waiting : Phase
  given : ℕ → Phase

-- The requests that are ready, the last that was ended first, and all that were ended.
pub record Poll : Type 0 where
  pub phase : Phase
  pub ready : List ℕ
  pub ended : List ℕ

abbrev pub begin : Poll
begin = record { phase = testing; ready = []; ended = [] }

-- `yoi_queue_pop`
abbrev pub popped : List ℕ → Phase × List ℕ
popped [] = (missed, [])
popped (r ∷ rs) = (given r, rs)

abbrev pub turn_at : Phase → List ℕ → Phase × List ℕ
turn_at testing ready = popped ready
turn_at missed ready = (waiting, ready)
turn_at waiting ready = (waiting, ready)
turn_at (given r) ready = (given r, ready)

-- A turn of the poller; its wait ends by what others do, or at its deadline, which are steps of their own.
unfoldable pub turn : Poll → Poll
turn p = let (phase, ready) = turn_at p.phase p.ready in record p { phase = phase; ready = ready }

-- `yoi_queue_impl_notify`, which wakes the poller only where it waits.
abbrev pub woken : Phase → Phase
woken waiting = testing
woken phase = phase

-- `yoi_req_end` of another thread.
unfoldable pub req_end : ℕ → Poll → Poll
req_end r p = record { phase = woken p.phase; ready = r ∷ p.ready; ended = r ∷ p.ended }

-- What happens. The wait may also end with no request ended: by itself, or at its deadline, where the call has one; the code
-- of `yo_cond_wait` is not looked at, so that the loop goes on in both cases.
pub data Step (p : Poll) : Poll → Type 0 where
  own : Step p (turn p)
  ends : (r : ℕ) → Step p (req_end r p)
  wakes : Step p (record p { phase = woken p.phase })

pub data Reach (p : Poll) : Poll → Type 0 where
  here : Reach p p
  next : {q u : Poll} → Reach p q → Step q u → Reach p u

-- The call without threads, over the readings of the clock; none where they are used up.
unfoldable pub spin :
    (deadline : Option Time) → List ℕ → (readings : List Time) → Option (Code × Option ℕ)
spin deadline (r ∷ ready) readings = some (Code.ok, some r)
spin deadline [] [] = none
spin none [] (now ∷ readings) = spin none [] readings
spin (some deadline) [] (now ∷ readings) =
    let rest = spin (some deadline) [] readings in
    if ltb_ℤ (pos 0) (timecmp now deadline) then some (Code.etimeout, none) else rest
