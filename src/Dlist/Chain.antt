-- ===== src/Dlist/Chain.antt =====
-- The list that the links spell.
use libyaooi.Prelude.{
  ℕ, ◌≡◌, ◌≢◌, refl, ap, Bool, true, false, ◌||◌, List, [], ◌∷◌, ◌==◌, if◌then◌else◌, arith,
  Bool-cases, inl, inr, ==→eq,
}
use libyaooi.Dlist.{Slot, at_head, at_next, Links}

abbrev pub has : ℕ → List ℕ → Bool
has n [] = false
has n (x ∷ xs) = (n == x) || has n xs

-- From pointer `p`, kept in `s`, the links lead through the distinct nodes `xs` to NULL, and each
-- node's slot is where it is pointed at.
pub data Chain (next : ℕ → ℕ) (slot : ℕ → Slot) : Slot → ℕ → List ℕ → Type 0 where
  nil : {s : Slot} → Chain next slot s 0 []
  cons :
      {s : Slot} {p : ℕ} {xs : List ℕ}
      → p ≢ 0
      → slot p ≡ s
      → has p xs ≡ false
      → Chain next slot (at_next p) (next p) xs
      → Chain next slot s p (p ∷ xs)

-- The list of `l` is `xs`.
abbrev pub Spells : Links → List ℕ → Type 0
Spells l xs = Chain l.next l.slot at_head l.head xs

-- `xs` without `n`.
abbrev pub erase : ℕ → List ℕ → List ℕ
erase n [] = []
erase n (x ∷ xs) = if n == x then xs else x ∷ erase n xs

pub has-erase : (n m : ℕ) (xs : List ℕ) → has n xs ≡ false → has n (erase m xs) ≡ false
has-erase n m [] h = refl
has-erase n m (x ∷ xs) h = ground (arith, has-erase n m xs)

pub apart : (n p : ℕ) (xs : List ℕ) → has p xs ≡ false → has n xs ≡ true → (n == p) ≡ false
apart n p xs out h = elim (Bool-cases (n == p)) [
  | inl e ↦ absurd (ground (arith, ap (λ m. has m xs) (==→eq n p e)))
  | inr ne ↦ ne
]

module _ {next : ℕ → ℕ} {slot : ℕ → Slot} where
  -- A chain survives any change that spares its own nodes.
  pub frame :
      {next' : ℕ → ℕ} {slot' : ℕ → Slot} {s : Slot} {p : ℕ} {xs : List ℕ}
      → Chain next slot s p xs
      → ((n : ℕ) → has n xs ≡ true → next' n ≡ next n)
      → ((n : ℕ) → has n xs ≡ true → slot' n ≡ slot n)
      → Chain next' slot' s p xs
  frame nil f g = nil
  frame (cons {p} {xs} ne here out c) f g =
      cons ne (ground (arith, g p, here)) out
        (rw (f p (ground arith)) (frame c (λ n h. f n (ground arith)) (λ n h. g n (ground arith))))

  -- The first node's slot may move with the pointer that it is pointed at by.
  pub reseat :
      {next' : ℕ → ℕ} {slot' : ℕ → Slot} {s : Slot} {p : ℕ} {xs : List ℕ} (t : Slot)
      → Chain next slot s p xs
      → (p ≢ 0 → slot' p ≡ t)
      → ((n : ℕ) → has n xs ≡ true → next' n ≡ next n)
      → ((n : ℕ) → has n xs ≡ true → (n == p) ≡ false → slot' n ≡ slot n)
      → Chain next' slot' t p xs
  reseat t nil f h g = nil
  reseat t (cons {p} {xs} ne here out c) f h g = cons ne (f ne) out (
      rw (h p (ground arith))
        (frame c (λ n i. h n (ground arith)) (λ n i. g n (ground arith) (apart n p xs out i))))

-- A chain begins at NULL or at one of its nodes.
pub head_in :
    {next : ℕ → ℕ} {slot : ℕ → Slot} {s : Slot} {p : ℕ} {xs : List ℕ}
    → Chain next slot s p xs
    → ((p == 0) || has p xs) ≡ true
head_in nil = refl
head_in (cons {p} ne here out c) = ground arith
