-- ===== src/Pool/Join.antt =====
-- What `yoi_pool_free` waits for when it joins the thread of a worker, and `yo_queue_free` around it, which
-- has the lock of the queue.
use libyaooi.Prelude.{
  ℕ, suc, zero, ◌≡◌, refl, Bool, true, false, Option, arith, ◌⊎◌, inl, inr, Bool-cases,
}
use libyaooi.Pool.{Phase, testing, running, after_end, exited, absent, Worker, round_at, round}

-- The worker behind some rounds of its thread.
abbrev pub rounds : ℕ → Bool → Worker → Worker
rounds zero queue_locked w = w
rounds (suc n) queue_locked w = rounds n queue_locked (round queue_locked w).0

-- `curr->kys = true`
abbrev pub stopped : Worker → Worker
stopped w = record w { kys = true }

abbrev pub is_running : Phase → Bool
is_running (running r) = true
is_running _ = false

abbrev pub was_made : Phase → Bool
was_made absent = false
was_made _ = true

abbrev worker : Phase → Option ℕ → Worker
worker ph t = record { task = t; kys = true; phase = ph }

ends_free :
    (ph : Phase) (t : Option ℕ) → was_made ph ≡ true → (rounds 3 false (worker ph t)).phase ≡ exited
unfolding round round_at
ends_free testing t m = refl
ends_free (running r) t m = refl
ends_free (after_end r) t m = refl
ends_free exited t m = refl
ends_free absent t m = ground arith

ends_locked :
    (ph : Phase) (t : Option ℕ)
    → was_made ph ≡ true
    → is_running ph ≡ false
    → (rounds 3 true (worker ph t)).phase ≡ exited
unfolding round round_at
ends_locked testing t m r = refl
ends_locked (running r1) t m r = ground arith
ends_locked (after_end r1) t m r = refl
ends_locked exited t m r = refl
ends_locked absent t m r = ground arith

stays :
    (n : ℕ) (ph : Phase) (t : Option ℕ)
    → is_running ph ≡ true
    → (rounds n true (worker ph t)).phase ≡ ph
unfolding round round_at
stays zero ph t r = refl
stays (suc n) (running r1) t r = stays n (running r1) t r
stays (suc n) testing t r = ground arith
stays (suc n) (after_end r1) t r = ground arith
stays (suc n) exited t r = ground arith
stays (suc n) absent t r = ground arith

-- A thread that was made leaves its loops within three rounds once its worker is told to stop, where the
-- lock of the queue is free. Where `yo_queue_free` has that lock, this holds for every thread but the one that is
-- in the callback of a request, which never leaves it, however many rounds it is given.
pub join_lem :
    (w : Worker)
    → was_made w.phase ≡ true
    → ((rounds 3 false (stopped w)).phase ≡ exited)
      × (((is_running w.phase ≡ false) × ((rounds 3 true (stopped w)).phase ≡ exited))
          ⊎ ((is_running w.phase ≡ true) × ((n : ℕ) → (rounds n true (stopped w)).phase ≡ w.phase)))
join_lem w m = (
  ends_free w.phase w.task m,
  elim (Bool-cases (is_running w.phase)) [
    | inl r ↦ inr (r, λ n. stays n w.phase w.task r)
    | inr r ↦ inl (r, ends_locked w.phase w.task m r)
  ],
)
