-- ===== src/Queue/Ready.antt =====
-- The ready list as a stack of requests with their codes: `req_end` pushes and `queue_pop` pops.
use libyaooi.Prelude.{
  ℕ, ◌≡◌, ◌≢◌, ◌<◌, refl, ap, ◌∙◌, Bool, true, false, ◌||◌, none, some, List, [], ◌∷◌, ◌==◌, arith,
  Bool-cases, inl, inr, ==→eq, ==_self,
}
use libyaooi.Queue.{Req, Heap, put, code_size, load_code, store_code, req_end, queue_pop}

abbrev pub listed : ℕ → List (ℕ × ℕ) → Bool
listed r [] = false
listed r ((s, c) ∷ xs) = (r == s) || listed r xs

-- From pointer `p` the `next` words lead through distinct requests to NULL, and these hold the codes.
pub data Ready (req : ℕ → Req) : ℕ → List (ℕ × ℕ) → Type 0 where
  nil : Ready req 0 []
  cons :
      {r : ℕ} {c : ℕ} {xs : List (ℕ × ℕ)}
      → r ≢ 0
      → load_code (req r) ≡ c
      → listed r xs ≡ false
      → Ready req ((req r).word1) xs
      → Ready req r ((r, c) ∷ xs)

pub frame :
    {req req' : ℕ → Req} {p : ℕ} {xs : List (ℕ × ℕ)}
    → Ready req p xs
    → ((r : ℕ) → listed r xs ≡ true → req' r ≡ req r)
    → Ready req' p xs
frame nil f = nil
frame (cons {r} {c} {xs} ne code out t) f =
    let here = f r (ground arith) in
    cons ne (ap load_code here ∙ code) out (rw here (frame t (λ s h. f s (ground arith))))

pub listed-apart :
    (r s : ℕ) (xs : List (ℕ × ℕ)) → listed r xs ≡ false → listed s xs ≡ true → (s == r) ≡ false
listed-apart r s xs out h = elim (Bool-cases (s == r)) [
  | inl e ↦ absurd (ground (arith, ap (λ m. listed m xs) (==→eq s r e)))
  | inr e ↦ e
]

-- The ready list of queue `q`.
abbrev pub Holds : Heap → ℕ → List (ℕ × ℕ) → Type 0
Holds h q xs = Ready h.req (h.head q) xs

-- The four bytes that are written are the ones that are read.
pub load_code-store_code : (c : ℕ) (r : Req) → c < code_size → load_code (store_code c r) ≡ c
load_code-store_code c r lt = omega arith

-- `yoi_req_end` puts a request that is not on the ready list of its queue in front of it, with the
-- code that it is given, if the code fits in its four bytes.
pub req_end_lem :
    (h : Heap) (q r code : ℕ) (xs : List (ℕ × ℕ))
    → r ≢ 0
    → (h.req r).queue ≡ q
    → code < code_size
    → listed r xs ≡ false
    → Holds h q xs
    → Holds (req_end r code h) q ((r, code) ∷ xs)
unfolding req_end
req_end_lem h q r code xs ne own lt out t =
    simp (==_self r, own)
      (rw (==_self q) (
        cons ne (rw (==_self r) (load_code-store_code code (h.req r) lt)) out
          (rw (==_self r) (frame t (λ s i. rw (listed-apart r s xs out i) refl)))))

-- `yoi_req_end` of a request keeps the ready list of every queue that is not the request's own, if
-- the request is not on it.
pub req_end_other :
    (h : Heap) (q q2 r code : ℕ) (xs : List (ℕ × ℕ))
    → (h.req r).queue ≡ q
    → q2 ≢ q
    → listed r xs ≡ false
    → Holds h q2 xs
    → Holds (req_end r code h) q2 xs
unfolding req_end
req_end_other h q q2 r code xs own ne out t =
    let other : (q2 == q) ≡ false = ground arith in
    simp (==_self r, own) (rw other (frame t (λ s i. rw (listed-apart r s xs out i) refl)))

-- The result of popping `q` and the list that it leaves.
abbrev pub Popped : Heap → ℕ → List (ℕ × ℕ) → Type 0
Popped h q [] = queue_pop q h ≡ (none, h)
Popped h q (x ∷ xs) = (h2 : Heap) × (queue_pop q h ≡ (some x, h2)) × Holds h2 q xs

pops :
    {p : ℕ} {xs : List (ℕ × ℕ)} (h : Heap) (q : ℕ) → Ready h.req p xs → h.head q ≡ p → Popped h q xs
unfolding queue_pop
pops h q nil e = rw e refl
pops h q (cons {r} {c} {xs} ne code out t) e =
    let nz : (r == 0) ≡ false = ground arith in
    (record h { head = put h.head q (h.req r).word1 }, rw (e, nz, code) refl, rw (==_self q) t)

-- `yoi_queue_pop` gives NULL and changes nothing where the ready list is empty; else it gives the
-- first request with its code and leaves the rest of the list.
pub queue_pop_lem : (h : Heap) (q : ℕ) (xs : List (ℕ × ℕ)) → Holds h q xs → Popped h q xs
queue_pop_lem h q xs t = pops h q t refl
