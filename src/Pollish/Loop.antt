-- ===== src/Pollish/Loop.antt =====
-- `yo_queue_poll` of src/unix/pollish.c for a queue whose requests are those of one descriptor. The loop
-- goes over what happens in the calls of `yoi_pl_impl_poll`: the requests that other threads end in the
-- meantime, and the answer of the poller.
use libyaooi.Prelude.{ℕ, ◌≡◌, refl, ap, Option, none, some, List, [], ◌∷◌, ◌==◌, if◌then◌else◌}
use libyaooi.Errno.{Code}
use libyaooi.Queue.{Heap, queue_pop}
use libyaooi.Queue.Ready.{Holds, queue_pop_lem}
use libyaooi.Queue.Drain.{end_all}
use libyaooi.Pollish.{Desc, req_stop, get_req}
use libyaooi.Pollish.Counted.{Counted}

-- The poller fails or reaches the deadline, the notification pipe has bytes, or the descriptor is ready for a mask.
pub data Answer : Type 0 where
  stopped : Code → Answer
  notified : Answer
  ready : ℕ → Answer

pub record Event : Type 0 where
  pub ended : List (ℕ × ℕ)
  pub answer : Answer

-- The function returns YO_OK with a request and its code, or another code, or it still waits.
pub data Polled (B : Type 0) : Type 0 where
  returned : ℕ × ℕ → Desc B → Polled B
  failed : Code → Desc B → Polled B
  blocked : Desc B → Polled B

-- `run` is what `_yoi_pl_req_do` returns for a request, `fuel` the bound of `get_req`.
module _ {B : Type 0} (setmask : ℕ → ℕ → B → Code × B) (run : ℕ → ℕ) (fuel q : ℕ) where
  abbrev serve : (Desc B → Polled B) → ℕ → Desc B → Polled B
  serve again r d = if r == 0 then again d else returned (r, run r) ((req_stop setmask r d).1)

  abbrev answered : (Desc B → Polled B) → Answer → Desc B → Polled B
  answered again (Answer.stopped code) d = failed code d
  answered again Answer.notified d = again d
  answered again (Answer.ready mask) d = serve again (get_req fuel mask d) d

  -- One round of the loop: the test of the ready list, and `wait` where it is empty.
  abbrev round : (Desc B → Polled B) → Option (ℕ × ℕ) × Heap → Desc B → Polled B
  round wait (none, h) d = wait d
  round wait (some x, h) d = returned x (record d { heap = h })

  unfoldable pub queue_poll : List Event → Desc B → Polled B
  queue_poll [] d = round (λ d. Polled.blocked d) (queue_pop q d.heap) d
  queue_poll (e ∷ es) d =
      round (λ d. answered (queue_poll es) e.answer (record d { heap = end_all e.ended d.heap }))
        (queue_pop q d.heap) d

module _ {B : Type 0} (setmask : ℕ → ℕ → B → Code × B) (run : ℕ → ℕ) (fuel q : ℕ) where
  -- Where the ready list is not empty, `yo_queue_poll` returns its first request with its code, whatever the poller would
  -- answer, and leaves the rest of the list.
  pub queue_poll-Holds :
      (es : List Event) (d : Desc B) (x : ℕ × ℕ) (xs : List (ℕ × ℕ))
      → Holds d.heap q (x ∷ xs)
      → (h : Heap) × (queue_poll setmask run fuel q es d
          ≡ Polled.returned x (record d { heap = h }))
        × Holds h q xs
  unfolding queue_poll
  queue_poll-Holds [] d x xs t =
      let (h, pop, rest) = queue_pop_lem d.heap q (x ∷ xs) t in
      (h, ap (λ p. round setmask run fuel q (λ d. Polled.blocked d) p d) pop, rest)
  queue_poll-Holds (e ∷ es) d x xs t =
      let (h, pop, rest) = queue_pop_lem d.heap q (x ∷ xs) t in (h, rw pop refl, rest)
