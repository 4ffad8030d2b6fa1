-- ===== src/Waits/Restarts.antt =====
-- The loops that wait again behind a signal.
use libyaooi.Prelude.{ℕ, ◌+◌, ◌-◌, ◌≤◌, ◌≡◌, refl, true, false, List, [], ◌∷◌, ◌++◌, All}
use libyaooi.Errno.Os.{Errno}
use libyaooi.Waits.{
  Polled, ready, fails, is_again, returned, aborted, poll_wrapper, Slept, slept, stopped, is_eintr,
}

-- An answer behind which the loop of `_yoi_poll_wrapper` calls again.
abbrev pub Again : Polled → Type 0
Again (ready n) = ⊥
Again (fails e) = is_again e ≡ true

-- `_yoi_poll_wrapper` gives what the first call gives that is not interrupted, however many are; and it aborts where that
-- call fails.
pub poll_wrapper-first :
    (before : List Polled) (n : ℕ) (e : Errno) (rest : List Polled)
    → All Again before
    → is_again e ≡ false
    → (poll_wrapper (before ++ (ready n ∷ rest)) ≡ returned n)
      × (poll_wrapper (before ++ (fails e ∷ rest)) ≡ aborted)
unfolding poll_wrapper
poll_wrapper-first [] n e rest h f = (refl, rw f refl)
poll_wrapper-first (ready m ∷ before) n e rest (h, hs) f = absurd h
poll_wrapper-first (fails x ∷ before) n e rest (h, hs) f =
    let (good, bad) = poll_wrapper-first before n e rest hs f in (rw h good, rw h bad)

-- A signal interrupts the sleep, and what remains is not more than what was asked for.
abbrev pub Interrupts : ℕ → List Slept → Type 0
Interrupts request [] = Unit
Interrupts request (slept ∷ answers) = ⊥
Interrupts request (stopped e remaining ∷ answers) =
    (is_eintr e ≡ true) × (remaining ≤ request) × Interrupts remaining answers

-- The nanoseconds that one call slept, and all of them.
abbrev pub spent : ℕ × Slept → ℕ
spent (request, slept) = request
spent (request, stopped e remaining) = request - remaining

abbrev pub all_spent : List (ℕ × Slept) → ℕ
all_spent [] = 0
all_spent (c ∷ cs) = spent c + all_spent cs
