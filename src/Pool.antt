-- ===== src/Pool.antt =====
-- The thread pool of src/pool.c. A callback is the code that it returns, and a thread is the phase that it is
-- in; each event is what one thread does between taking a lock and giving it back.
pub mod Conserved
pub mod Drained
pub mod Join
mod Tests
use libyaooi.Prelude.{
  ℕ, suc, zero, Bool, true, false, ◌&&◌, not, Option, none, some, List, [], ◌∷◌, ◌++◌,
  if◌then◌else◌,
}
use libyaooi.Prelude.Int.{ℤ, pos, ltb_ℤ, eqb_ℤ}

-- Where the thread of a worker is: at the tests of its loops, with the lock of the worker or in
-- `yo_cond_wait`; in the callback of a request, without the lock; behind `yoi_req_end`, about to take the
-- lock again; behind its loops; or nowhere, where no thread was made.
pub data Phase : Type 0 where
  testing : Phase
  running : ℕ → Phase
  after_end : ℕ → Phase
  exited : Phase
  absent : Phase

-- `struct yo_pool_worker`. The fields `worker`, `req` and `args` are set and cleared together: `task` is the
-- request, and none where they are NULL.
pub record Worker : Type 0 where
  pub task : Option ℕ
  pub kys : Bool
  pub phase : Phase

-- One round of a thread: where it is then, what becomes of the task, and the requests that it ends.
-- `queue_locked` tells that another thread has the lock of the queue, for which `yoi_req_end` waits.
unfoldable pub round_at : Phase → (queue_locked kys : Bool) → Option ℕ → Phase × Option ℕ × List ℕ
round_at testing queue_locked true task = (exited, task, [])
round_at testing queue_locked false none = (testing, none, [])
round_at testing queue_locked false (some r) = (running r, some r, [])
round_at (running r) true kys task = (running r, task, [])
round_at (running r) false kys task = (after_end r, task, r ∷ [])
round_at (after_end r) queue_locked kys task = (testing, none, [])
round_at exited queue_locked kys task = (exited, task, [])
round_at absent queue_locked kys task = (absent, task, [])

unfoldable pub round : Bool → Worker → Worker × List ℕ
round queue_locked w =
    let (phase, task, done) = round_at w.phase queue_locked w.kys w.task in
    (record w { phase = phase; task = task }, done)

abbrev pub is_none : Option ℕ → Bool
is_none none = true
is_none (some r) = false

-- `!it->worker && !it->kys`
abbrev pub is_free : Worker → Bool
is_free w = is_none w.task && not w.kys

-- The loop of `yo_req_exec` over the workers, and none where none is free.
unfoldable pub assign : ℕ → List Worker → Option (List Worker)
assign r [] = none
assign r (w ∷ ws) =
    let rest = assign r ws in
    if is_free w
    then some (record w { task = some r } ∷ ws)
    else elim rest [ none ↦ none | some ws1 ↦ some (w ∷ ws1) ]

-- The worker that is made for a request; `created` is the result of `yo_thread_new`, which has made a
-- thread where it is 0.
abbrev pub new_worker : ℕ → ℤ → Worker
new_worker r created = record {
  task = some r;
  kys = false;
  phase = if eqb_ℤ created (pos 0) then testing else absent;
}

pub data Result : Type 0 where
  ok : Result
  enomem : Result
  eagain : Result

unfoldable pub with_new : (memory : Bool) → (created : ℤ) → ℕ → List Worker → Result × List Worker
with_new memory created r ws =
    if memory
    then (if ltb_ℤ created (pos 0) then (eagain, ws) else (ok, new_worker r created ∷ ws))
    else (enomem, ws)

-- `yo_req_exec`
unfoldable pub req_exec : (memory : Bool) → (created : ℤ) → ℕ → List Worker → Result × List Worker
req_exec memory created r ws = elim (assign r ws) [
  | some ws1 ↦ (ok, ws1)
  | none ↦ with_new memory created r ws
]

-- The pool, whether `yo_queue_free` has the lock of the queue, and what has happened: the requests that
-- `yo_req_exec` took, and those that were ended.
pub record Pool : Type 0 where
  pub workers : List Worker
  pub queue_locked : Bool
  pub taken : List ℕ
  pub ended : List ℕ

abbrev pub pool_init : Pool
pool_init = record { workers = []; queue_locked = false; taken = []; ended = [] }

-- A round of the thread of worker `i`.
unfoldable pub round_of : ℕ → Bool → List Worker → List Worker × List ℕ
round_of i queue_locked [] = ([], [])
round_of zero queue_locked (w ∷ ws) = let (w1, done) = round queue_locked w in (w1 ∷ ws, done)
round_of (suc i) queue_locked (w ∷ ws) =
    let (ws1, done) = round_of i queue_locked ws in (w ∷ ws1, done)

-- The first section of `yoi_pool_free` for the worker at the head.
abbrev pub kill_head : List Worker → List Worker
kill_head [] = []
kill_head (w ∷ ws) = record w { kys = true } ∷ ws

pub data Event : Type 0 where
  exec : (memory : Bool) → (created : ℤ) → ℕ → Event
  own : ℕ → Event
  lock_queue : Event
  kill : Event

abbrev pub take : Result → ℕ → List ℕ → List ℕ
take ok r taken = r ∷ taken
take _ r taken = taken

unfoldable pub happen : Event → Pool → Pool
happen (exec memory created r) p =
    let (result, ws) = req_exec memory created r p.workers in
    record p { workers = ws; taken = take result r p.taken }
happen (own i) p =
    let (ws, done) = round_of i p.queue_locked p.workers in
    record p { workers = ws; ended = done ++ p.ended }
happen lock_queue p = record p { queue_locked = true }
happen kill p = record p { workers = kill_head p.workers }

unfoldable pub run : List Event → Pool → Pool
run [] p = p
run (e ∷ es) p = run es (happen e p)
