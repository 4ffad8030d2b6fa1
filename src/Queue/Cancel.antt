-- ===== src/Queue/Cancel.antt =====
-- `yo_req_cancel`.
use libyaooi.Prelude.{
  ℕ, ◌≡◌, ◌+◌, ◌/◌, ◌*◌, refl, true, false, ◌==◌, arith, Bool-cases, inl, inr, ==_self,
}
use libyaooi.Queue.{
  Req, Heap, req_begin, req_end, store_cancelled, load_cancelled, req_cancel, req_cancel_noop_cb,
}

kept_1 : (r : Req) → (load_cancelled (store_cancelled 1 r) == 0) ≡ false
kept_1 r = ground arith

kept_0 : (r : Req) → (load_cancelled (store_cancelled 0 r) == 0) ≡ true
kept_0 r = ground arith

cancelled_once :
    (callback : ℕ → ℕ → Heap → Heap) (r : ℕ) (h : Heap)
    → (load_cancelled (h.req r) == 0) ≡ false
    → req_cancel callback r h ≡ h
unfolding req_cancel
cancelled_once callback r h e = rw e refl

-- Whatever the callbacks do, a second `yo_req_cancel` of one request changes nothing.
pub req_cancel-req_cancel :
    (callback : ℕ → ℕ → Heap → Heap) (r : ℕ) (h : Heap)
    → req_cancel callback r (req_cancel callback r h) ≡ req_cancel callback r h
unfolding req_cancel
req_cancel-req_cancel callback r h = elim (Bool-cases (load_cancelled (h.req r) == 0)) [
  | inl e ↦
      let k : (load_cancelled ((req_cancel callback r h).req r) == 0) ≡ false =
        simp e (rw (==_self r) (kept_1 ((callback (h.req r).word0 r h).req r))) in
      cancelled_once callback r (req_cancel callback r h) k
  | inr e ↦ cancelled_once callback r (req_cancel callback r h) (rw e e)
]

-- A request of queue `q` begins with `yoi_req_cancel_noop_cb` for its callback and is cancelled. It is
-- then the first of the ready list, and its `next` word is not the pointer that the list had for its head
-- but that pointer with the byte 1 in place of its lowest byte.
pub req_cancel-req_begin :
    (callback : ℕ → ℕ → Heap → Heap) (noop q r : ℕ) (h : Heap)
    → ((h2 : Heap) → callback noop r h2 ≡ req_cancel_noop_cb r h2)
    → (h.req r).queue ≡ q
    → ((req_cancel callback r (req_begin r noop h)).head q ≡ r)
      × (((req_cancel callback r (req_begin r noop h)).req r).word1 ≡ h.head q / 256 * 256 + 1)
unfolding req_cancel req_begin req_end
req_cancel-req_begin callback noop q r h is_noop own = simp (==_self r) (
    simp (kept_0 (record (h.req r) { word0 = noop }))
      (simp (is_noop, own, ==_self r) (rw (==_self q) refl, refl)))
