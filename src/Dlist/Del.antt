-- ===== src/Dlist/Del.antt =====
-- `dlist_del` takes a node out of the list, wherever it stands.
use libyaooi.Prelude.{
  ℕ, ◌≡◌, ◌≢◌, refl, ap, ◌∙◌, Bool, true, false, not, ◌&&◌, ◌||◌, List, ◌∷◌, ◌==◌, if◌then◌else◌,
  arith, Bool-cases, inl, inr, ==→eq, ==_self,
}
use libyaooi.Dlist.{Slot, at_head, at_next, Links, update, store, dlist_del}
use libyaooi.Dlist.Chain.{
  has, Chain, nil, cons, Spells, erase, has-erase, apart, frame, reseat, head_in,
}

slot_eqb : Slot → Slot → Bool
slot_eqb at_head at_head = true
slot_eqb (at_next j) (at_next k) = k == j
slot_eqb _ _ = false

-- Whether a slot is a field of one of the nodes.
within : Slot → List ℕ → Bool
within at_head xs = false
within (at_next j) xs = has j xs

slot_eqb_self : (t : Slot) → slot_eqb t t ≡ true
unfolding slot_eqb
slot_eqb_self at_head = refl
slot_eqb_self (at_next j) = ground arith

within-cons :
    (t : Slot) (p : ℕ) (xs : List ℕ)
    → (slot_eqb t (at_next p) || within t xs) ≡ true
    → within t (p ∷ xs) ≡ true
unfolding within slot_eqb
within-cons at_head p xs h = h
within-cons (at_next j) p xs h = ground arith

within-apart :
    (t s : Slot) (xs : List ℕ) → within t xs ≡ true → within s xs ≡ false → slot_eqb t s ≡ false
unfolding within slot_eqb
within-apart at_head at_head xs h o = absurd (cc)
within-apart at_head (at_next k) xs h o = refl
within-apart (at_next j) at_head xs h o = refl
within-apart (at_next j) (at_next k) xs h o = ground (arith, apart j k xs o h)

module _ {next : ℕ → ℕ} {slot : ℕ → Slot} where
  -- A node's slot is the chain's, or a field of a node of the chain.
  before :
      {s : Slot} {p : ℕ} {xs : List ℕ} (n : ℕ)
      → Chain next slot s p xs
      → has n xs ≡ true
      → (slot_eqb (slot n) s || within (slot n) xs) ≡ true
  before n nil h = absurd (cc)
  before {s} n (cons {p} {xs} ne here out c) h = elim (Bool-cases (n == p)) [
    | inl e ↦ rw (ap slot (==→eq n p e), here, slot_eqb_self s) refl
    | inr e ↦ rw (within-cons (slot n) p xs (before n c (ground arith))) (ground arith)
  ]

  link :
      {s : Slot} {p : ℕ} {xs : List ℕ} (n : ℕ)
      → Chain next slot s p xs
      → within s xs ≡ false
      → has n xs ≡ true
      → slot_eqb (slot n) s ≡ (n == p)
  link n nil o h = absurd (cc)
  link {s} n (cons {p} {xs} ne here out c) o h = elim (Bool-cases (n == p)) [
    | inl e ↦ rw (e, ap slot (==→eq n p e), here) (slot_eqb_self s)
    | inr e ↦
        rw e (
          within-apart (slot n) s (p ∷ xs) (within-cons (slot n) p xs (before n c (ground arith)))
            o)
  ]

  -- A node leads to NULL or to a node of the chain.
  behind :
      {s : Slot} {p : ℕ} {xs : List ℕ} (n : ℕ)
      → Chain next slot s p xs
      → has n xs ≡ true
      → ((next n == 0) || has (next n) xs) ≡ true
  behind n nil h = absurd (cc)
  behind n (cons {p} {xs} ne here out c) h = elim (Bool-cases (n == p)) [
    | inl e ↦
        ap (λ m. (next m == 0) || has (next m) (p ∷ xs)) (==→eq n p e) ∙ ground (arith, head_in c)
    | inr e ↦ ground (arith, behind n c)
  ]

-- The links behind `dlist_del`.
del_next : ℕ → Links → ℕ → ℕ
del_next n l k = if slot_eqb (l.slot n) (at_next k) then l.next n else l.next k

del_slot : ℕ → Links → ℕ → Slot
del_slot n l k = if not (l.next n == 0) && (k == l.next n) then l.slot n else l.slot k

foreign :
    (s : Slot) (p k : ℕ) (xs : List ℕ)
    → within s (p ∷ xs) ≡ false
    → has k xs ≡ true
    → slot_eqb s (at_next k) ≡ false
unfolding within slot_eqb
foreign at_head p k xs o h = refl
foreign (at_next j) p k xs o h = ground (arith, apart k j xs)

del_first :
    (l : Links) {s : Slot} {p : ℕ} {xs : List ℕ}
    → p ≢ 0
    → l.slot p ≡ s
    → Chain l.next l.slot (at_next p) (l.next p) xs
    → within s (p ∷ xs) ≡ false
    → Chain (del_next p l) (del_slot p l) s (l.next p) xs
unfolding del_next del_slot
del_first l {s} {p} {xs} ne here c o =
    let z0 : l.next p ≢ 0 → (l.next p == 0) ≡ false = λ z. ground arith in
    reseat s c (λ z. rw (z0 z, ==_self (l.next p)) here)
      (λ k h. rw (here, foreign s p k xs o h) refl)
      (λ k h e. elim (Bool-cases (l.next p == 0)) [ inl z ↦ rw z refl | inr z ↦ rw (z, e) refl ])

module _ (n : ℕ) (l : Links) where
  next_moved :
      {p : ℕ} {xs : List ℕ}
      → Chain l.next l.slot (at_next p) (l.next p) xs
      → has p xs ≡ false
      → has n xs ≡ true
      → del_next n l p ≡ (if n == l.next p then l.next n else l.next p)
  unfolding del_next within
  next_moved c out h = rw (link n c out h) refl

  slot_kept :
      {p : ℕ} {xs : List ℕ}
      → Chain l.next l.slot (at_next p) (l.next p) xs
      → has p xs ≡ false
      → has n xs ≡ true
      → del_slot n l p ≡ l.slot p
  unfolding del_slot
  slot_kept {p} {xs} c out h = elim (Bool-cases (not (l.next n == 0) && (p == l.next n))) [
    | inl e ↦
        absurd
          (ground (arith, behind n c h, ap (λ m. has m xs) (==→eq p (l.next n) (ground arith))))
    | inr e ↦ rw e refl
  ]

  del-Chain :
      {s : Slot} {p : ℕ} {xs : List ℕ}
      → Chain l.next l.slot s p xs
      → within s xs ≡ false
      → has n xs ≡ true
      → Chain (del_next n l) (del_slot n l) s (if n == p then l.next n else p) (erase n xs)
  unfolding within
  del-Chain nil o h = absurd (cc)
  del-Chain {s} (cons {p} {xs} ne here out c) o h = elim (Bool-cases (n == p)) [
    | inl e ↦ rw (e, ==→eq n p e) (del_first l ne here c o)
    | inr e ↦
        let i : has n xs ≡ true = ground arith in
        let d : Chain (del_next n l) (del_slot n l) (at_next p)
            (if n == l.next p then l.next n else l.next p) (erase n xs) =
          del-Chain c out i in
        rw e (cons ne (slot_kept c out i ∙ here) (has-erase p n xs out) (rw (next_moved c out i) d))
  ]

store_head :
    (t : Slot) (p : ℕ) (l : Links) → (store t p l).head ≡ (if slot_eqb t at_head then p else l.head)
unfolding store slot_eqb
store_head at_head p l = refl
store_head (at_next j) p l = refl

store_next :
    (t : Slot) (p : ℕ) (l : Links) (k : ℕ)
    → (store t p l).next k ≡ (if slot_eqb t (at_next k) then p else l.next k)
unfolding store slot_eqb
store_next at_head p l k = refl
store_next (at_next j) p l k = refl

store_slot : (t : Slot) (p : ℕ) (l : Links) (k : ℕ) → (store t p l).slot k ≡ l.slot k
unfolding store
store_slot at_head p l k = refl
store_slot (at_next j) p l k = refl

-- Deleting a node of the list, wherever it stands, takes it out and keeps the order of the others.
pub dlist_del_lem :
    (n : ℕ) (l : Links) (xs : List ℕ)
    → has n xs ≡ true
    → Spells l xs
    → Spells (dlist_del n l) (erase n xs)
unfolding dlist_del del_next del_slot within
dlist_del_lem n l xs h c =
    let d : Chain (del_next n l) (del_slot n l) at_head (if n == l.head then l.next n else l.head)
        (erase n xs) =
      del-Chain n l c refl h in
    let at : slot_eqb (l.slot n) at_head ≡ (n == l.head) = link n c refl h in
    elim (Bool-cases (l.next n == 0)) [
      | inl e ↦ simp e (
          rw (store_head (l.slot n) (l.next n) l, at)
            (frame d (λ k i. store_next (l.slot n) (l.next n) l k)
              (λ k i. rw e (store_slot (l.slot n) (l.next n) l k))))
      | inr e ↦
          let l1 : Links = record l { slot = update l.slot (l.next n) (l.slot n) } in
          let own : l1.slot n ≡ l.slot n = elim (Bool-cases (n == l.next n)) [
            | inl i ↦ rw i refl
            | inr i ↦ rw i refl
          ] in
          simp e (
            rw own (
              rw (store_head (l.slot n) (l.next n) l1, at)
                (frame d (λ k i. store_next (l.slot n) (l.next n) l1 k)
                  (λ k i. store_slot (l.slot n) (l.next n) l1 k ∙ rw e refl))))
    ]
