-- ===== src/Pollish/Tests.antt =====
-- A descriptor with a pending read and a pending write, and a poller that counts its calls.
use libyaooi.Prelude.{ℕ, ◌≡◌, ◌+◌, refl, [], ◌∷◌, ◌==◌, if◌then◌else◌, arith}
use libyaooi.Errno.{Code}
use libyaooi.Dlist.{Slot, at_head, at_next, Links}
use libyaooi.Dlist.Chain.{nil, cons}
use libyaooi.Queue.{req_end, Heap, Req}
use libyaooi.Pollish.{Kind, Desc, writable, req_start, req_stop}
use libyaooi.Pollish.Counted.{Counted, waiting, waits, req_start-Counted, req_stop-Counted}
use libyaooi.Pollish.First.{first_ready}
use libyaooi.Pollish.Loop.{Answer, Event}
use libyaooi.Queue.Ready.{req_end_lem}

abbrev two_next : ℕ → ℕ
two_next k = if k == 1 then 2 else 0

abbrev two_slot : ℕ → Slot
two_slot k = if k == 1 then at_head else at_next 1

abbrev two_kind : ℕ → Kind
two_kind k = if k == 2 then Kind.write else Kind.read

abbrev blank : Req
blank = record { queue = 1; word0 = 0; word1 = 0 }

abbrev no_reqs : ℕ → Req
no_reqs r = blank

abbrev no_heads : ℕ → ℕ
no_heads q = 0

abbrev two_links : Links
two_links = record { head = 1; next = two_next; slot = two_slot }

abbrev idle : Heap
idle = record { req = no_reqs; head = no_heads; notified = no_heads }

abbrev pending : Desc ℕ
pending = record {
  links = two_links;
  kind = two_kind;
  read_n = 1;
  write_n = 1;
  heap = idle;
  poller = 0;
}

abbrev able : ℕ → ℕ → ℕ → Code × ℕ
able q mask n = (Code.ok, n + 1)

abbrev unable : ℕ → ℕ → ℕ → Code × ℕ
unable q mask n = (Code.eperm, n + 1)

pending-Counted : Counted pending (1 ∷ 2 ∷ [])
unfolding waiting waits
pending-Counted =
    (cons (ground arith) refl refl (cons (ground arith) refl refl nil), refl, refl, ground arith)

req_start-Counted_example : Counted ((req_start able 77 9 0 pending).1) (9 ∷ 1 ∷ 2 ∷ [])
req_start-Counted_example =
    req_start-Counted able 77 9 0 pending (1 ∷ 2 ∷ []) pending-Counted (ground arith) refl
      (ground arith) refl

req_stop-Counted_example : Counted ((req_stop able 2 pending).1) (1 ∷ [])
req_stop-Counted_example = req_stop-Counted able 2 pending (1 ∷ 2 ∷ []) pending-Counted refl

writer : first_ready two_kind writable (1 ∷ 2 ∷ []) ≡ 2
unfolding first_ready
writer = refl

-- The read that the poller refused is counted with the pending one.
overcounted : (req_start unable 77 9 0 pending).1.read_n ≡ 2
unfolding req_start
overcounted = refl

abbrev no_bytes : ℕ → ℕ
no_bytes r = 0

abbrev write_ready : Event
write_ready = record { ended = []; answer = Answer.ready writable }

abbrev one_ready : Desc ℕ
one_ready = record pending { heap = req_end 9 7 idle }
