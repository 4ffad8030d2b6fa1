-- ===== src/Queue/Tests.antt =====
-- Two requests of one queue, ended, polled and cancelled.
use libyaooi.Prelude.{ℕ, ◌≡◌, refl, List, [], ◌∷◌, arith}
use libyaooi.Queue.{
  Req, Heap, req_begin, req_end, queue_pop, req_cancel, req_cancel_noop_cb, req_new,
}
use libyaooi.Queue.Ready.{nil}
use libyaooi.Queue.Drain.{Endable, end_all, drain, drain-end_all}

abbrev blank : Req
blank = record { queue = 1; word0 = 0; word1 = 0 }

abbrev no_reqs : ℕ → Req
no_reqs r = blank

abbrev no_heads : ℕ → ℕ
no_heads q = 0

abbrev idle : Heap
idle = record { req = no_reqs; head = no_heads; notified = no_heads }

abbrev two : List (ℕ × ℕ)
two = (4096, 0) ∷ (4192, 7) ∷ []

two-Endable : Endable idle 1 two []
two-Endable = (ground arith, refl, ground arith, refl, (ground arith, refl, ground arith, refl, tt))

drain-end_all_example : drain 3 1 (end_all two idle) ≡ (4192, 7) ∷ (4096, 0) ∷ []
drain-end_all_example = drain-end_all 3 1 idle two [] (ground arith) two-Endable nil

abbrev run_callback : ℕ → ℕ → Heap → Heap
run_callback f r h = req_cancel_noop_cb r h

-- The cancelled request comes out of the queue, and the list then has the address 1 for its head.
after_cancel : (queue_pop 1 (req_cancel run_callback 4096 (req_begin 4096 77 idle))).1.head 1 ≡ 1
unfolding queue_pop req_cancel req_begin req_end
after_cancel = refl

new_owner : ((req_new 4096 5 idle).1.req 4096).queue ≡ 5
unfolding req_new
new_owner = refl
