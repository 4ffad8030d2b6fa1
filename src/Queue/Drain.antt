-- ===== src/Queue/Drain.antt =====
-- Ending several requests and taking all that are ready: `yoi_req_end` and `yoi_queue_pop` together.
use libyaooi.Prelude.{
  ℕ, ◌≡◌, ◌≢◌, ◌<◌, suc, zero, refl, sym, ap, ◌∙◌, false, Option, none, some, List, [], ◌∷◌, ◌==◌,
  arith, Bool-cases, inl, inr, ==→eq, ==_self, length,
}
use libyaooi.Queue.{Heap, code_size, req_end, queue_pop}
use libyaooi.Queue.Ready.{listed, Holds, req_end_lem, queue_pop_lem}

unfoldable pub end_all : List (ℕ × ℕ) → Heap → Heap
end_all [] h = h
end_all ((r, code) ∷ xs) h = end_all xs (req_end r code h)

abbrev collect : (Heap → List (ℕ × ℕ)) → Option (ℕ × ℕ) × Heap → List (ℕ × ℕ)
collect rest (none, h) = []
collect rest (some x, h) = x ∷ rest h

-- `yoi_queue_pop` until it gives NULL.
unfoldable pub drain : ℕ → ℕ → Heap → List (ℕ × ℕ)
drain zero q h = []
drain (suc fuel) q h = collect (drain fuel q) (queue_pop q h)

-- Enough rounds take the whole ready list, in its order.
pub drain_lem :
    (fuel q : ℕ) (h : Heap) (xs : List (ℕ × ℕ))
    → length xs < fuel
    → Holds h q xs
    → drain fuel q h ≡ xs
unfolding drain
drain_lem zero q h xs lt t = absurd (ground arith)
drain_lem (suc fuel) q h [] lt t =
    let pop : queue_pop q h ≡ (none, h) = queue_pop_lem h q [] t in ap (collect (drain fuel q)) pop
drain_lem (suc fuel) q h (x ∷ xs) lt t =
    let (h2, pop, rest) = queue_pop_lem h q (x ∷ xs) t in
    ap (collect (drain fuel q)) pop ∙ ap (λ ys. x ∷ ys) (drain_lem fuel q h2 xs (ground arith) rest)

-- Requests that can be ended on queue `q`: not NULL, of the queue, not yet ended.
abbrev pub Endable : Heap → ℕ → List (ℕ × ℕ) → List (ℕ × ℕ) → Type 0
Endable h q [] done = Unit
Endable h q ((r, code) ∷ xs) done =
    (r ≢ 0)
    × ((h.req r).queue ≡ q)
    × (code < code_size)
    × (listed r done ≡ false)
    × Endable h q xs ((r, code) ∷ done)

abbrev pub reverse_onto : List (ℕ × ℕ) → List (ℕ × ℕ) → List (ℕ × ℕ)
reverse_onto [] done = done
reverse_onto (x ∷ xs) done = reverse_onto xs (x ∷ done)

queue-req_end : (h : Heap) (r code s : ℕ) → ((req_end r code h).req s).queue ≡ (h.req s).queue
unfolding req_end
queue-req_end h r code s = elim (Bool-cases (s == r)) [
  | inl e ↦ simp (==_self r, e) (ap (λ m. (h.req m).queue) (sym (==→eq s r e)))
  | inr e ↦ simp e refl
]

Endable-req_end :
    (h : Heap) (q r code : ℕ) (xs done : List (ℕ × ℕ))
    → Endable h q xs done
    → Endable (req_end r code h) q xs done
Endable-req_end h q r code [] done e = tt
Endable-req_end h q r code ((s, c) ∷ xs) done (ne, own, lt, out, e) =
    (ne, queue-req_end h r code s ∙ own, lt, out, Endable-req_end h q r code xs ((s, c) ∷ done) e)

pub end_all_lem :
    (h : Heap) (q : ℕ) (xs done : List (ℕ × ℕ))
    → Endable h q xs done
    → Holds h q done
    → Holds (end_all xs h) q (reverse_onto xs done)
unfolding end_all
end_all_lem h q [] done e t = t
end_all_lem h q ((r, code) ∷ xs) done (ne, own, lt, out, e) t =
    end_all_lem (req_end r code h) q xs ((r, code) ∷ done)
      (Endable-req_end h q r code xs ((r, code) ∷ done) e)
      (req_end_lem h q r code done ne own lt out t)

-- Requests that are ended on a queue whose ready list is `done` and then taken come out once each with
-- their codes, the one that was ended last first, before those of `done`, if the rounds are more than they are.
pub drain-end_all :
    (fuel q : ℕ) (h : Heap) (xs done : List (ℕ × ℕ))
    → length (reverse_onto xs done) < fuel
    → Endable h q xs done
    → Holds h q done
    → drain fuel q (end_all xs h) ≡ reverse_onto xs done
drain-end_all fuel q h xs done lt e t =
    drain_lem fuel q (end_all xs h) (reverse_onto xs done) lt (end_all_lem h q xs done e t)
