-- ===== src/Poll/Search.antt =====
-- The search for the node of a descriptor.
use libyaooi.Prelude.{
  ℕ, ◌≡◌, ◌≢◌, ◌<◌, suc, zero, refl, true, false, List, ◌∷◌, ◌==◌, arith, length, Bool-cases, inl,
  inr, ==→eq,
}
use libyaooi.Dlist.{Slot}
use libyaooi.Dlist.Chain.{has, Chain, nil, cons, Spells}
use libyaooi.Poll.{Backend, find_from, find}
use libyaooi.Poll.Masks.{absent}

-- What the search gives: NULL, and no node has the descriptor, or a node that has it.
pub data Found (fds : ℕ → ℕ) (fd : ℕ) (xs : List ℕ) : ℕ → Type 0 where
  missing : absent fds fd xs ≡ true → Found fds fd xs 0
  found : {i : ℕ} → i ≢ 0 → has i xs ≡ true → fds i ≡ fd → Found fds fd xs i

later :
    {fds : ℕ → ℕ} {fd p i : ℕ} {xs : List ℕ}
    → (fds p == fd) ≡ false
    → Found fds fd xs i
    → Found fds fd (p ∷ xs) i
later ne (missing a) = missing (rw ne a)
later ne (found {i} nz h e) = found nz (ground arith) e

search :
    (fuel fd : ℕ) (b : Backend) {s : Slot} {p : ℕ} {xs : List ℕ}
    → Chain b.links.next b.links.slot s p xs
    → length xs < fuel
    → Found b.fd fd xs (find_from fuel p fd b)
unfolding find_from
search zero fd b c lt = absurd (ground arith)
search (suc fuel) fd b nil lt = missing refl
search (suc fuel) fd b (cons {p} {xs} ne here out c) lt =
    let nz : (p == 0) ≡ false = ground arith in
    elim (Bool-cases (b.fd p == fd)) [
      | inl e ↦ rw (nz, e) (found ne (ground arith) (==→eq (b.fd p) fd e))
      | inr e ↦ rw (nz, e) (later e (search fuel fd b c (ground arith)))
    ]

pub find-Found :
    (fuel fd : ℕ) (b : Backend) (xs : List ℕ)
    → Spells b.links xs
    → length xs < fuel
    → Found b.fd fd xs (find fuel fd b)
find-Found fuel fd b xs c lt = search fuel fd b c lt
