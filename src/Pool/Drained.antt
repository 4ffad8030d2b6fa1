-- ===== src/Pool/Drained.antt =====
-- Each request that the pool has taken is ended, once every thread has taken two rounds.
use libyaooi.Prelude.{
  ℕ, suc, zero, ◌-◌, ◌≤◌, ◌<◌, ◌≡◌, refl, ap, ◌∙◌, Bool, true, false, Option, none, some, List, [],
  ◌∷◌, arith, one, count, All, length,
}
use libyaooi.Pool.{
  Phase, testing, running, after_end, exited, absent, Worker, round_at, round, Pool, pool_init,
  round_of, Event, own, happen, run,
}
use libyaooi.Pool.Conserved.{held_all, held_at, run-Conserved, run_init-Conserved}

-- The rounds that a thread takes until the request of its worker is ended.
abbrev left_of : Phase → Option ℕ → ℕ
left_of testing (some r) = 2
left_of (running r) t = 1
left_of _ t = 0

abbrev left : Worker → ℕ
left w = left_of w.phase w.task

abbrev left_at : ℕ → List Worker → ℕ
left_at i [] = 0
left_at zero (w ∷ ws) = left w
left_at (suc i) (w ∷ ws) = left_at i ws

abbrev runs : Phase → Bool
runs exited = false
runs absent = false
runs _ = true

-- The thread of the worker was made and has not left its loops, and it is not told to stop.
abbrev pub IsLive : Worker → Type 0
IsLive w = (runs w.phase ≡ true) × (w.kys ≡ false)

left-round_at :
    (ph : Phase) (t : Option ℕ)
    → left_of (round_at ph false false t).0 (round_at ph false false t).1 ≡ left_of ph t - 1
unfolding round_at
left-round_at testing none = refl
left-round_at testing (some r) = refl
left-round_at (running r) t = refl
left-round_at (after_end r) t = refl
left-round_at exited t = refl
left-round_at absent t = refl

runs-round_at : (ph : Phase) (t : Option ℕ) → runs (round_at ph false false t).0 ≡ runs ph
unfolding round_at
runs-round_at testing none = refl
runs-round_at testing (some r) = refl
runs-round_at (running r) t = refl
runs-round_at (after_end r) t = refl
runs-round_at exited t = refl
runs-round_at absent t = refl

held-left :
    (n : ℕ) (ph : Phase) (t : Option ℕ) → runs ph ≡ true → left_of ph t ≡ 0 → held_at n ph t ≡ 0
held-left n testing none h e = refl
held-left n testing (some r) h e = omega (arith, e)
held-left n (running r) t h e = omega (arith, e)
held-left n (after_end r) t h e = refl
held-left n exited t h e = ground arith
held-left n absent t h e = ground arith

left_le : (ph : Phase) (t : Option ℕ) → left_of ph t ≤ 2
left_le testing none = omega arith
left_le testing (some r) = omega arith
left_le (running r) t = omega arith
left_le (after_end r) t = omega arith
left_le exited t = omega arith
left_le absent t = omega arith

left_at-round_of :
    (i j : ℕ) (ws : List Worker)
    → All IsLive ws
    → left_at i (round_of j false ws).0 ≡ left_at i ws - one i j
unfolding round_of round
left_at-round_of i j [] h = omega arith
left_at-round_of zero zero (w ∷ ws) ((r, k), hs) = rw k (left-round_at w.phase w.task)
left_at-round_of zero (suc j) (w ∷ ws) h = ground arith
left_at-round_of (suc i) zero (w ∷ ws) h = ground arith
left_at-round_of (suc i) (suc j) (w ∷ ws) (h, hs) = left_at-round_of i j ws hs ∙ ground arith

round_of-IsLive : (j : ℕ) (ws : List Worker) → All IsLive ws → All IsLive (round_of j false ws).0
unfolding round_of round
round_of-IsLive j [] h = tt
round_of-IsLive zero (w ∷ ws) ((r, k), hs) = ((rw k (runs-round_at w.phase w.task ∙ r), k), hs)
round_of-IsLive (suc j) (w ∷ ws) (h, hs) = (h, round_of-IsLive j ws hs)

length-round_of : (j : ℕ) (ws : List Worker) → length (round_of j false ws).0 ≡ length ws
unfolding round_of
length-round_of j [] = refl
length-round_of zero (w ∷ ws) = refl
length-round_of (suc j) (w ∷ ws) = omega (arith, length-round_of j ws)

held_all-left :
    (n : ℕ) (ws : List Worker)
    → All IsLive ws
    → ((i : ℕ) → i < length ws → left_at i ws ≡ 0)
    → held_all n ws ≡ 0
held_all-left n [] h e = refl
held_all-left n (w ∷ ws) ((r, k), hs) e = omega (
  arith,
  held-left n w.phase w.task r (e 0 (omega arith)),
  held_all-left n ws hs (λ i l. e (suc i) (omega (arith, l))),
)

left_at_le : (i : ℕ) (ws : List Worker) → left_at i ws ≤ 2
left_at_le i [] = omega arith
left_at_le zero (w ∷ ws) = left_le w.phase w.task
left_at_le (suc i) (w ∷ ws) = left_at_le i ws

-- Rounds of the workers' threads, in the order of the list.
abbrev pub owns : List ℕ → List Event
owns [] = []
owns (i ∷ order) = own i ∷ owns order

-- The pool once these rounds are taken: nothing is taken meanwhile, and what is left grows less.
left_at-owns :
    (order : List ℕ) (p : Pool)
    → All IsLive p.workers
    → p.queue_locked ≡ false
    → ((run (owns order) p).taken ≡ p.taken)
      × All IsLive (run (owns order) p).workers
      × (length (run (owns order) p).workers ≡ length p.workers)
      × ((i : ℕ) → left_at i (run (owns order) p).workers ≡ left_at i p.workers - count i order)
unfolding run happen
left_at-owns [] p h e = (refl, h, refl, λ i. omega arith)
left_at-owns (j ∷ order) p h e =
    let h1 : All IsLive (round_of j p.queue_locked p.workers).0 =
      rw e (round_of-IsLive j p.workers h) in
    let n1 : length (round_of j p.queue_locked p.workers).0 ≡ length p.workers =
      rw e (length-round_of j p.workers) in
    let left1 : (i : ℕ)
        → left_at i (round_of j p.queue_locked p.workers).0 ≡ left_at i p.workers - one i j =
      λ i. rw e (left_at-round_of i j p.workers h) in
    let (t, hs, n, l) = left_at-owns order (happen (own j) p) h1 e in
    (t, hs, n ∙ n1, λ i. omega (arith, l i, left1 i))

-- However requests were given to the pool before: where every thread was made and none is told to stop or
-- kept from the lock of the queue, any rounds in which each thread takes at least two end every request that
-- `yo_req_exec` took, as often as it was taken.
pub count-owns :
    (es : List Event) (order : List ℕ)
    → All IsLive (run es pool_init).workers
    → (run es pool_init).queue_locked ≡ false
    → ((i : ℕ) → i < length (run es pool_init).workers → 2 ≤ count i order)
    → (n : ℕ)
    → count n (run (owns order) (run es pool_init)).ended ≡ count n (run es pool_init).taken
count-owns es order h e fair n =
    let p = run es pool_init in
    let (t, hs, m, l) = left_at-owns order p h e in
    let (f, c) = run-Conserved (owns order) p (run_init-Conserved es) in
    let none_held =
      held_all-left n (run (owns order) p).workers hs
        (λ i i_lt. omega (arith, l i, left_at_le i p.workers, fair i (omega (arith, i_lt, m)))) in
    omega (arith, c n, none_held, ap (λ taken. count n taken) t)
