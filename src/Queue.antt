-- ===== src/Queue.antt =====
-- The requests and the ready list of src/queue.c and src/queue.h. A request's `running` and `ready`
-- are one union: `running.cancel` is the word at offset 0 and `running.cancelled` the byte at offset
-- 8, `ready.code` is the first four bytes and `ready.next` the word at offset 8, on a little-endian
-- machine with 8-byte pointers. The queue's lock is held around each operation, so the operations are
-- steps on the heap. What the callbacks do is a parameter.
pub mod Life
pub mod Ready
pub mod Drain
pub mod Cancel
mod Tests
use libyaooi.Prelude.{
  ℕ, ◌+◌, ◌*◌, ◌/◌, ◌%◌, Bool, true, false, Option, none, some, ◌==◌, if◌then◌else◌,
}

-- A request: its queue, and the two words that the union begins with.
pub record Req : Type 0 where
  pub queue : ℕ
  pub word0 : ℕ
  pub word1 : ℕ

-- Requests and queues by address, 0 is NULL. `notified` counts the calls of `yoi_queue_impl_notify`.
pub record Heap : Type 0 where
  pub req : ℕ → Req
  pub head : ℕ → ℕ
  pub notified : ℕ → ℕ

abbrev pub put {ℓ} : {A : Type ℓ} → (ℕ → A) → ℕ → A → ℕ → A
put f n v m = if m == n then v else f m

abbrev pub code_size : ℕ
code_size = 4294967296

abbrev pub byte_size : ℕ
byte_size = 256

abbrev pub load_code : Req → ℕ
load_code r = r.word0 % code_size

abbrev pub store_code : ℕ → Req → Req
store_code c r = record r { word0 = r.word0 / code_size * code_size + c % code_size }

abbrev pub load_cancelled : Req → ℕ
load_cancelled r = r.word1 % byte_size

abbrev pub store_cancelled : ℕ → Req → Req
store_cancelled b r = record r { word1 = r.word1 / byte_size * byte_size + b % byte_size }

unfoldable pub req_begin : ℕ → ℕ → Heap → Heap
req_begin r cancel h = record h {
  req = put h.req r (store_cancelled 0 (record (h.req r) { word0 = cancel }));
}

-- `yoi_list_add(req_ready, queue->head, req)`
abbrev pub list_add : ℕ → ℕ → Heap → Heap
list_add q r h = record h {
  req = put h.req r (record (h.req r) { word1 = h.head q });
  head = put h.head q r;
}

abbrev pub queue_impl_notify : ℕ → Heap → Heap
queue_impl_notify q h = record h { notified = put h.notified q (h.notified q + 1) }

unfoldable pub req_end : ℕ → ℕ → Heap → Heap
req_end r code h =
    let h1 : Heap = record h { req = put h.req r (store_code code (h.req r)) } in
    let q : ℕ = (h1.req r).queue in queue_impl_notify q (list_add q r h1)

-- YO_ECANCELED, -2, as the four bytes it is kept in.
abbrev pub canceled : ℕ
canceled = 4294967294

abbrev pub req_cancel_noop_cb : ℕ → Heap → Heap
req_cancel_noop_cb r h = req_end r canceled h

-- The request and its code, or none where the list is empty.
unfoldable pub queue_pop : ℕ → Heap → Option (ℕ × ℕ) × Heap
queue_pop q h =
    let r : ℕ = h.head q in
    if r == 0
    then (none, h)
    else (let h1 : Heap = record h { head = put h.head q (h.req r).word1 } in
        (some (r, load_code (h1.req r)), h1))

-- `callback` is the function at the address that a request's `cancel` holds.
unfoldable pub req_cancel : (callback : ℕ → ℕ → Heap → Heap) → ℕ → Heap → Heap
req_cancel callback r h =
    if load_cancelled (h.req r) == 0
    then (let h1 : Heap = callback (h.req r).word0 r h in
        record h1 { req = put h1.req r (store_cancelled 1 (h1.req r)) })
    else h

-- `r` is what malloc returned.
unfoldable pub req_new : (r q : ℕ) → Heap → ℕ × Heap
req_new r q h =
    if r == 0 then (0, h) else (r, record h { req = put h.req r (record (h.req r) { queue = q }) })
