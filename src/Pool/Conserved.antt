-- ===== src/Pool/Conserved.antt =====
-- No request is lost or ended twice by the workers, in any order of their rounds.
use libyaooi.Prelude.{
  ℕ, suc, zero, ◌+◌, ◌≡◌, refl, Bool, true, false, Option, none, some, Bool-cases, inl, inr, List,
  [], ◌∷◌, arith, one, count, count-append, All,
}
use libyaooi.Prelude.Int.{ℤ, pos, ltb_ℤ, eqb_ℤ}
use libyaooi.Pool.{
  Phase, testing, running, after_end, exited, absent, Worker, round_at, round, is_free, assign,
  Result, ok, with_new, req_exec, Pool, pool_init, round_of, kill_head, Event, exec, own,
  lock_queue, kill, take, happen, run,
}

abbrev at_task : ℕ → Option ℕ → ℕ
at_task n none = 0
at_task n (some r) = one n r

-- 1 where a worker has request `n`, and has not ended it.
abbrev pub held_at : ℕ → Phase → Option ℕ → ℕ
held_at n testing t = at_task n t
held_at n (running r) t = one n r
held_at n (after_end r) t = 0
held_at n exited t = at_task n t
held_at n absent t = at_task n t

abbrev pub held : ℕ → Worker → ℕ
held n w = held_at n w.phase w.task

abbrev pub held_all : ℕ → List Worker → ℕ
held_all n [] = 0
held_all n (w ∷ ws) = held n w + held_all n ws

-- The thread is at a request only while it is the task of its worker.
abbrev Fits : Phase → Option ℕ → Type 0
Fits (running r) t = t ≡ some r
Fits (after_end r) t = t ≡ some r
Fits _ t = Unit

abbrev pub IsFit : Worker → Type 0
IsFit w = Fits w.phase w.task

-- What was taken is what was ended and what the workers still hold.
abbrev pub Conserved : Pool → Type 0
Conserved p =
    All IsFit p.workers × ((n : ℕ) → count n p.taken ≡ count n p.ended + held_all n p.workers)

module _ (n : ℕ) where
  Fits-round_at :
      (ph : Phase) (l k : Bool) (t : Option ℕ)
      → Fits ph t
      → Fits (round_at ph l k t).0 (round_at ph l k t).1
  unfolding round_at
  Fits-round_at testing l true t f = tt
  Fits-round_at testing l false none f = tt
  Fits-round_at testing l false (some r) f = refl
  Fits-round_at (running r) true k t f = f
  Fits-round_at (running r) false k t f = f
  Fits-round_at (after_end r) l k t f = tt
  Fits-round_at exited l k t f = tt
  Fits-round_at absent l k t f = tt

  held-round_at :
      (ph : Phase) (l k : Bool) (t : Option ℕ)
      → held_at n ph t
        ≡ held_at n (round_at ph l k t).0 (round_at ph l k t).1 + count n (round_at ph l k t).2
  unfolding round_at
  held-round_at testing l true t = omega arith
  held-round_at testing l false none = refl
  held-round_at testing l false (some r) = omega arith
  held-round_at (running r) true k t = omega arith
  held-round_at (running r) false k t = omega arith
  held-round_at (after_end r) l k none = refl
  held-round_at (after_end r) l k (some _) = refl
  held-round_at exited l k t = omega arith
  held-round_at absent l k t = omega arith

  IsFit-round : (l : Bool) (w : Worker) → IsFit w → IsFit (round l w).0
  unfolding round
  IsFit-round l w f = Fits-round_at w.phase l w.kys w.task f

  IsFit-round_of :
      (i : ℕ) (l : Bool) (ws : List Worker) → All IsFit ws → All IsFit (round_of i l ws).0
  unfolding round_of
  IsFit-round_of i l [] f = tt
  IsFit-round_of zero l (w ∷ ws) (f, fs) = (IsFit-round l w f, fs)
  IsFit-round_of (suc i) l (w ∷ ws) (f, fs) = (f, IsFit-round_of i l ws fs)

  pub held_all-round_of :
      (i : ℕ) (l : Bool) (ws : List Worker)
      → held_all n ws ≡ held_all n (round_of i l ws).0 + count n (round_of i l ws).1
  unfolding round_of round
  held_all-round_of i l [] = refl
  held_all-round_of zero l (w ∷ ws) = omega (arith, held-round_at w.phase l w.kys w.task)
  held_all-round_of (suc i) l (w ∷ ws) = omega (arith, held_all-round_of i l ws)

  -- A free worker has no request and can be given one.
  Free : ℕ → Phase → Option ℕ → Type 0
  Free r ph t = Fits ph (some r) × (held_at n ph t ≡ 0) × (held_at n ph (some r) ≡ one n r)

  is_free-Free :
      (r : ℕ) (ph : Phase) (t : Option ℕ) (k : Bool)
      → is_free (record { task = t; kys = k; phase = ph }) ≡ true
      → Fits ph t
      → Free r ph t
  unfolding Free
  is_free-Free r testing none k e f = (tt, refl, refl)
  is_free-Free r (running r1) none k e f = ground arith
  is_free-Free r (after_end r1) none k e f = ground arith
  is_free-Free r exited none k e f = (tt, refl, refl)
  is_free-Free r absent none k e f = (tt, refl, refl)
  is_free-Free r ph (some r1) k e f = ground arith

  Given : ℕ → List Worker → Option (List Worker) → Type 0
  Given r ws none = Unit
  Given r ws (some ws1) = All IsFit ws1 × (held_all n ws1 ≡ held_all n ws + one n r)

  Given-cons :
      (r : ℕ) (w : Worker) (ws : List Worker) (rest : Option (List Worker))
      → IsFit w
      → Given r ws rest
      → Given r (w ∷ ws) (elim rest [ none ↦ none | some ws1 ↦ some (w ∷ ws1) ])
  unfolding Given
  Given-cons r w ws none f g = tt
  Given-cons r w ws (some ws1) f (fs, h) = ((f, fs), omega arith)

  assign-Given : (r : ℕ) (ws : List Worker) → All IsFit ws → Given r ws (assign r ws)
  unfolding assign Given Free
  assign-Given r [] fs = tt
  assign-Given r (w ∷ ws) (f, fs) = elim (Bool-cases (is_free w)) [
    | inl e ↦
        let (g, none_held, one_held) = is_free-Free r w.phase w.task w.kys e f in
        rw e ((g, fs), omega arith)
    | inr e ↦ rw e (Given-cons r w ws (assign r ws) f (assign-Given r ws fs))
  ]

  -- What `yo_req_exec` leaves: the workers hold the request, where it was taken.
  unfoldable pub Taken : ℕ → List Worker → Result × List Worker → Type 0
  Taken r ws (result, ws1) =
      All IsFit ws1
      × ((taken : List ℕ)
          → count n (take result r taken) + held_all n ws ≡ count n taken + held_all n ws1)

  with_new-Taken :
      (memory : Bool) (created : ℤ) (r : ℕ) (ws : List Worker)
      → All IsFit ws
      → Taken r ws (with_new memory created r ws)
  unfolding with_new Taken
  with_new-Taken false created r ws fs = (fs, λ taken. refl)
  with_new-Taken true created r ws fs = elim (Bool-cases (ltb_ℤ created (pos 0))) [
    | inl e ↦ rw e (fs, λ taken. refl)
    | inr e ↦ elim (Bool-cases (eqb_ℤ created (pos 0))) [
      | inl z ↦ rw e (rw z ((tt, fs), λ taken. omega arith))
      | inr z ↦ rw e (rw z ((tt, fs), λ taken. omega arith))
    ]
  ]

  assigned-Taken :
      (memory : Bool) (created : ℤ) (r : ℕ) (ws : List Worker) (found : Option (List Worker))
      → All IsFit ws
      → Given r ws found
      → Taken r ws (elim found [ some ws1 ↦ (ok, ws1) | none ↦ with_new memory created r ws ])
  unfolding Taken Given
  assigned-Taken memory created r ws none fs g = with_new-Taken memory created r ws fs
  assigned-Taken memory created r ws (some ws1) fs (gs, h) = (gs, λ taken. omega arith)

  pub req_exec-Taken :
      (memory : Bool) (created : ℤ) (r : ℕ) (ws : List Worker)
      → All IsFit ws
      → Taken r ws (req_exec memory created r ws)
  unfolding req_exec
  req_exec-Taken memory created r ws fs =
      assigned-Taken memory created r ws (assign r ws) fs (assign-Given r ws fs)

  kill_head-All : (ws : List Worker) → All IsFit ws → All IsFit (kill_head ws)
  kill_head-All [] fs = tt
  kill_head-All (w ∷ ws) fs = fs

  pub held_all-kill_head : (ws : List Worker) → held_all n (kill_head ws) ≡ held_all n ws
  held_all-kill_head [] = refl
  held_all-kill_head (w ∷ ws) = refl

pub happen-Conserved : (e : Event) (p : Pool) → Conserved p → Conserved (happen e p)
unfolding happen Taken
happen-Conserved (exec memory created r) p (fs, h) = (
  (req_exec-Taken 0 memory created r p.workers fs).0,
  λ n. let (_, t) = req_exec-Taken n memory created r p.workers fs in omega (arith, t p.taken, h n),
)
happen-Conserved (own i) p (fs, h) = (
  IsFit-round_of 0 i p.queue_locked p.workers fs,
  λ n. omega (
    arith,
    h n,
    held_all-round_of n i p.queue_locked p.workers,
    count-append n (round_of i p.queue_locked p.workers).1 p.ended,
  ),
)
happen-Conserved lock_queue p c = c
happen-Conserved kill p (fs, h) =
    (kill_head-All 0 p.workers fs, λ n. omega (arith, h n, held_all-kill_head n p.workers))

pub run-Conserved : (es : List Event) (p : Pool) → Conserved p → Conserved (run es p)
unfolding run
run-Conserved [] p c = c
run-Conserved (e ∷ es) p c = run-Conserved es (happen e p) (happen-Conserved e p c)

-- In whatever order the threads take their rounds, requests are given to the pool and workers are told to
-- stop, each request was taken by `yo_req_exec` as often as it was ended and is still held together;
-- and a thread is only at the request that is the task of its worker.
pub run_init-Conserved : (es : List Event) → Conserved (run es pool_init)
run_init-Conserved es = run-Conserved es pool_init (tt, λ n. refl)
