-- ===== src/Pool/Tests.antt =====
-- Two requests on a pool of two workers, and a third that waits for neither.
use libyaooi.Prelude.{
  ℕ, ◌≡◌, ◌≤◌, ◌<◌, refl, true, false, some, List, [], ◌∷◌, arith, count, length,
}
use libyaooi.Prelude.Int.{pos}
use libyaooi.Pool.{
  Worker, running, Event, exec, own, pool_init, run, happen, round, round_at, round_of, req_exec,
  assign, with_new,
}
use libyaooi.Pool.Conserved.{Conserved, run_init-Conserved}
use libyaooi.Pool.Drained.{owns, count-owns}

abbrev two : List Event
two = exec true (pos 0) 7 ∷ exec true (pos 0) 8 ∷ own 1 ∷ own 1 ∷ own 1 ∷ exec true (pos 0) 9 ∷ []

-- The first worker has ended its request, and gets the third.
run-two : (run two pool_init).ended ≡ 7 ∷ []
unfolding run happen round round_at round_of req_exec assign with_new
run-two = refl

length-two : length (run two pool_init).workers ≡ 2
unfolding run happen round round_at round_of req_exec assign with_new
length-two = refl

run_init-Conserved_example : Conserved (run two pool_init)
run_init-Conserved_example = run_init-Conserved two

fair : (i : ℕ) → i < 2 → 2 ≤ count i (0 ∷ 1 ∷ 1 ∷ 0 ∷ [])
fair i h = ground arith

count-owns_example :
    count 9 (run (owns (0 ∷ 1 ∷ 1 ∷ 0 ∷ [])) (run two pool_init)).ended
    ≡ count 9 (run two pool_init).taken
unfolding run happen round round_at round_of req_exec assign with_new
count-owns_example =
    count-owns two (0 ∷ 1 ∷ 1 ∷ 0 ∷ []) ((refl, refl), ((refl, refl), tt)) refl fair 9

abbrev busy : Worker
busy = record { task = some 7; kys = false; phase = running 7 }
