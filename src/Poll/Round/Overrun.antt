-- ===== src/Poll/Round/Overrun.antt =====
-- Where `yoi_pl_impl_poll` writes in its array.
use libyaooi.Prelude.{
  ℕ, ◌+◌, ◌<◌, ◌≡◌, refl, ap, ◌∙◌, Bool, true, false, Bool-cases, inl, inr, List, [], ◌∷◌, ◌==◌,
  leb, if◌then◌else◌, length, length-append, arith, ==→eq,
}
use libyaooi.Poll.Round.{
  Node, Asked, Revents, Fds, asked, grown, fill, is_full, addfd, add_all, impl_poll,
}

module _ (memory : ℕ → Bool) (enough : (i : ℕ) → memory i ≡ true) where
  pub add_all-fill :
      (node : Node) (nodes : List Node) (s : Fds)
      → is_full s ≡ false
      → add_all memory (node ∷ nodes) s ≡ add_all memory nodes (fill node s)
  unfolding add_all addfd
  add_all-fill node nodes s e = rw e refl

  pub add_all-grown :
      (node : Node) (nodes : List Node) (s : Fds)
      → is_full s ≡ true
      → add_all memory (node ∷ nodes) s ≡ add_all memory nodes (fill node (grown true s))
  unfolding add_all addfd
  add_all-grown node nodes s e = rw e (rw (enough (length s.filled)) refl)

  -- An entry that is written behind the array stays so.
  overrun-add_all :
      (nodes : List Node) (s : Fds) → s.overrun ≡ true → (add_all memory nodes s).1.overrun ≡ true
  unfolding add_all
  overrun-add_all [] s o = o
  overrun-add_all (node ∷ nodes) s o = elim (Bool-cases (is_full s)) [
    | inl e ↦
        ap (λ r. r.1.overrun) (add_all-grown node nodes s e)
        ∙ overrun-add_all nodes (fill node (grown true s)) (rw o refl)
    | inr e ↦
        ap (λ r. r.1.overrun) (add_all-fill node nodes s e)
        ∙ overrun-add_all nodes (fill node s) (rw o refl)
  ]

  -- With room for the next entry, by the capacity.
  overrun_room :
      (nodes : List Node) (s : Fds)
      → s.size ≡ s.fds_cap
      → length s.filled < s.fds_cap
      → s.overrun ≡ false
      → (add_all memory nodes s).1.overrun ≡ leb s.fds_cap (length s.filled + length nodes)
  unfolding add_all
  overrun_room [] s z l o = o ∙ ground arith
  overrun_room (node ∷ nodes) s z l o =
      let longer = length-append s.filled (asked node ∷ []) in
      ap (λ r. r.1.overrun) (add_all-fill node nodes s (ground arith))
      ∙ elim (Bool-cases (leb s.size (length s.filled + 1))) [
        | inl e ↦ overrun-add_all nodes (fill node s) (rw o e) ∙ ground arith
        | inr e ↦
            overrun_room nodes (fill node s) z (ground arith) (rw o e)
            ∙ ap (λ n. leb s.fds_cap n) (omega (arith, longer))
      ]

  overrun_empty :
      (nodes : List Node)
      → (add_all memory nodes
          (record { fds_cap = 0; size = 0; filled = []; overrun = false })).1.overrun
        ≡ leb 16 (length nodes)
  unfolding add_all
  overrun_empty [] = refl
  overrun_empty (node ∷ nodes) =
      ap (λ r. r.1.overrun)
        (add_all-grown node nodes (record { fds_cap = 0; size = 0; filled = []; overrun = false })
          refl)
      ∙ overrun_room nodes
          (record { fds_cap = 16; size = 16; filled = asked node ∷ []; overrun = false }) refl
          (omega arith) refl
      ∙ ap (λ n. leb 16 n) (omega arith)

-- An array as it is between two calls, with memory for as many entries as `fds_cap` says.
abbrev pub array : ℕ → Fds
array cap = record { fds_cap = cap; size = cap; filled = []; overrun = false }

abbrev pub first_room : ℕ → ℕ
first_room cap = if cap == 0 then 16 else cap

array-impl_poll :
    (memory : ℕ → Bool) (poll : List Asked → List Revents) (nodes : List Node) (cap : ℕ)
    → (impl_poll memory poll nodes (array cap)).2 ≡ (add_all memory nodes (array cap)).1
unfolding impl_poll
array-impl_poll memory poll nodes cap = elim (Bool-cases (add_all memory nodes (array cap)).0) [
  | inl e ↦ rw e refl
  | inr e ↦ rw e refl
]

-- Where there is always memory, `yoi_pl_impl_poll` writes behind its array exactly where there are at least as many
-- descriptors as the array had entries when the call began, 16 for an array that was not allocated yet.
pub overrun-impl_poll :
    (memory : ℕ → Bool) (poll : List Asked → List Revents) (nodes : List Node) (cap : ℕ)
    → ((i : ℕ) → memory i ≡ true)
    → (impl_poll memory poll nodes (array cap)).2.overrun ≡ leb (first_room cap) (length nodes)
overrun-impl_poll memory poll nodes cap enough =
    ap (λ s. s.overrun) (array-impl_poll memory poll nodes cap) ∙ elim (Bool-cases (cap == 0)) [
      | inl e ↦ rw (==→eq cap 0 e) (overrun_empty memory enough nodes)
      | inr e ↦
          overrun_room memory enough nodes (array cap) refl (ground arith) refl
          ∙ rw e (ap (λ n. leb cap n) (omega arith))
    ]
