-- ===== src/Dlist/Add.antt =====
-- `dlist_add` puts a node in front of the list.
use libyaooi.Prelude.{
  ℕ, ◌≡◌, ◌≢◌, refl, ap, false, List, ◌∷◌, ◌==◌, arith, Bool-cases, inl, inr, ==→eq, ==_self,
}
use libyaooi.Dlist.{Slot, at_head, at_next, Links, dlist_add}
use libyaooi.Dlist.Chain.{has, Chain, cons, Spells, apart, reseat, head_in}

apart_head :
    {next : ℕ → ℕ} {slot : ℕ → Slot} {s : Slot} {p : ℕ} {xs : List ℕ} (n : ℕ)
    → Chain next slot s p xs
    → n ≢ 0
    → has n xs ≡ false
    → (n == p) ≡ false
apart_head {p} {xs} n c ne out = elim (Bool-cases (n == p)) [
  | inl e ↦ absurd (ground (arith, head_in c, ap (λ m. has m xs) (==→eq n p e)))
  | inr e ↦ e
]

-- A new first node.
pushed :
    {next : ℕ → ℕ} {slot : ℕ → Slot} {next' : ℕ → ℕ} {slot' : ℕ → Slot} {p : ℕ} {xs : List ℕ}
    (n : ℕ)
    → n ≢ 0
    → has n xs ≡ false
    → Chain next slot at_head p xs
    → slot' n ≡ at_head
    → next' n ≡ p
    → (p ≢ 0 → slot' p ≡ at_next n)
    → ((k : ℕ) → (k == n) ≡ false → next' k ≡ next k)
    → ((k : ℕ) → (k == n) ≡ false → (k == p) ≡ false → slot' k ≡ slot k)
    → Chain next' slot' at_head n (n ∷ xs)
pushed {xs} n ne out c s1 n1 sp hn hs = cons ne s1 out (
    rw n1 (
      reseat (at_next n) c sp (λ k i. hn k (apart k n xs out i))
        (λ k i j. hs k (apart k n xs out i) j)))

-- Adding a node that is not in the list puts it in front.
pub dlist_add_lem :
    (n : ℕ) (l : Links) (xs : List ℕ)
    → n ≢ 0
    → has n xs ≡ false
    → Spells l xs
    → Spells (dlist_add n l) (n ∷ xs)
unfolding dlist_add
dlist_add_lem n l xs ne out c = elim (Bool-cases (l.head == 0)) [
  | inl e ↦ simp e (
      pushed n ne out c (rw (==_self n) refl) (rw (==_self n) refl) (λ z. absurd (ground arith))
        (λ k i. rw i refl) (λ k i j. rw i refl))
  | inr e ↦ simp e (
      pushed n ne out c (rw (apart_head n c ne out, ==_self n) refl) (rw (==_self n) refl)
        (λ z. rw (==_self l.head) refl) (λ k i. rw i refl) (λ k i j. rw (i, j) refl))
]
