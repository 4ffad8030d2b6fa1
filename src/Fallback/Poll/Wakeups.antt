-- ===== src/Fallback/Poll/Wakeups.antt =====
-- What the poller with threads gives, and what it misses.
use libyaooi.Prelude.{ℕ, ◌+◌, ◌≡◌, refl, List, [], ◌∷◌, arith, one, count}
use libyaooi.Fallback.Poll.{
  Phase, testing, missed, waiting, given, Poll, begin, turn, woken, req_end, Step, own, ends, wakes,
  Reach, here, next,
}

abbrev pub given_count : ℕ → Phase → ℕ
given_count n (given r) = one n r
given_count n _ = 0

-- Each request that was ended is ready or was given.
abbrev pub Accounted : Poll → Type 0
Accounted p = (n : ℕ) → count n p.ended ≡ count n p.ready + given_count n p.phase

given_count-woken : (n : ℕ) (ph : Phase) → given_count n (woken ph) ≡ given_count n ph
given_count-woken n testing = refl
given_count-woken n missed = refl
given_count-woken n waiting = refl
given_count-woken n (given r) = refl

turn-Accounted : (p : Poll) → Accounted p → Accounted (turn p)
unfolding turn
turn-Accounted p h = at p.phase p.ready h
  where
    at :
        (ph : Phase) (ready : List ℕ)
        → Accounted (record p { phase = ph; ready = ready })
        → Accounted (turn (record p { phase = ph; ready = ready }))
    at testing [] h n = h n
    at testing (r ∷ rs) h n = omega (arith, h n)
    at missed ready h n = h n
    at waiting ready h n = h n
    at (given r) ready h n = h n

Step-Accounted : {p q : Poll} → Step p q → Accounted p → Accounted q
unfolding req_end
Step-Accounted {p} own h n = turn-Accounted p h n
Step-Accounted {p} (ends r) h n = omega (arith, h n, given_count-woken n p.phase)
Step-Accounted {p} wakes h n = omega (arith, h n, given_count-woken n p.phase)

-- However the other threads end requests between the turns of the poller, and whenever its wait ends, each request was ended
-- as often as it is ready and is given by the call together.
pub Reach-Accounted : {p : Poll} → Reach begin p → Accounted p
Reach-Accounted here n = refl
Reach-Accounted (next r s) n = Step-Accounted s (Reach-Accounted r) n

-- The poller waits, and its own turns do nothing.
abbrev pub Stuck : Poll → Type 0
Stuck p = (p.phase ≡ waiting) × (turn p ≡ p)

-- The moment in which a request is missed is reached before any request was ended.
pub Reach-Stuck : (r : ℕ) → (p : Poll) × Reach begin p × (p.ready ≡ r ∷ []) × Stuck p
unfolding turn req_end
Reach-Stuck r = (_, next (next (next here own) (ends r)) own, refl, (refl, refl))
