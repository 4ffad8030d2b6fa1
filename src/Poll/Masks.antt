-- ===== src/Poll/Masks.antt =====
-- The nodes of the poll backend as a map from descriptors to masks and data.
use libyaooi.Prelude.{
  ℕ, ◌≡◌, refl, sym, ap, ◌∙◌, Bool, true, false, not, ◌&&◌, Option, none, some, List, [], ◌∷◌, ◌==◌,
  if◌then◌else◌, arith, Bool-cases, inl, inr, ==_self, ==→eq,
}
use libyaooi.Dlist.Chain.{has, erase, apart}
use libyaooi.Poll.{put}

-- No node of the list has the descriptor `fd`.
abbrev pub absent : (ℕ → ℕ) → ℕ → List ℕ → Bool
absent fds fd [] = true
absent fds fd (y ∷ ys) = not (fds y == fd) && absent fds fd ys

-- No two nodes of the list have one descriptor.
abbrev pub distinct : (ℕ → ℕ) → List ℕ → Bool
distinct fds [] = true
distinct fds (x ∷ xs) = absent fds (fds x) xs && distinct fds xs

-- What the nodes of the list say of a descriptor: its mask and its data, or nothing.
abbrev pub lookup : (fds evn udata : ℕ → ℕ) → ℕ → List ℕ → Option (ℕ × ℕ)
lookup fds evn udata g [] = none
lookup fds evn udata g (x ∷ xs) =
    if fds x == g then some (evn x, udata x) else lookup fds evn udata g xs

absent-apart :
    (fds : ℕ → ℕ) (f i : ℕ) (ys : List ℕ)
    → absent fds f ys ≡ true
    → has i ys ≡ true
    → (fds i == f) ≡ false
absent-apart fds f i [] a h = absurd (cc)
absent-apart fds f i (y ∷ ys) a h = elim (Bool-cases (i == y)) [
  | inl e ↦ ap (λ m. fds m == f) (==→eq i y e) ∙ ground arith
  | inr e ↦ absent-apart fds f i ys (ground arith) (ground arith)
]

pub absent-erase :
    (fds : ℕ → ℕ) (f i : ℕ) (ys : List ℕ)
    → absent fds f ys ≡ true
    → absent fds f (erase i ys) ≡ true
absent-erase fds f i [] a = refl
absent-erase fds f i (y ∷ ys) a = elim (Bool-cases (i == y)) [
  | inl e ↦ rw e (ground arith)
  | inr e ↦ rw e (ground (arith, absent-erase fds f i ys (ground arith)))
]

pub distinct-erase :
    (fds : ℕ → ℕ) (i : ℕ) (ys : List ℕ) → distinct fds ys ≡ true → distinct fds (erase i ys) ≡ true
distinct-erase fds i [] d = refl
distinct-erase fds i (y ∷ ys) d = elim (Bool-cases (i == y)) [
  | inl e ↦ rw e (ground arith)
  | inr e ↦
      rw (e, absent-erase fds (fds y) i ys (ground arith)) (distinct-erase fds i ys (ground arith))
]

-- Nodes outside the list do not matter.
module _ {fds fds2 : ℕ → ℕ} where
  pub absent_frame :
      (f : ℕ) (ys : List ℕ)
      → ((y : ℕ) → has y ys ≡ true → fds2 y ≡ fds y)
      → absent fds2 f ys ≡ absent fds f ys
  absent_frame f [] s = refl
  absent_frame f (y ∷ ys) s =
      rw (s y (ground arith), absent_frame f ys (λ z h. s z (ground arith))) refl

  pub distinct_frame :
      (ys : List ℕ)
      → ((y : ℕ) → has y ys ≡ true → fds2 y ≡ fds y)
      → distinct fds2 ys ≡ distinct fds ys
  distinct_frame [] s = refl
  distinct_frame (y ∷ ys) s =
      rw
        (
          s y (ground arith),
          absent_frame (fds y) ys (λ z h. s z (ground arith)),
          distinct_frame ys (λ z h. s z (ground arith)),
        )
        refl

module _ {fds fds2 evn evn2 udata udata2 : ℕ → ℕ} where
  pub lookup_frame :
      (g : ℕ) (ys : List ℕ)
      → ((y : ℕ) → has y ys ≡ true → fds2 y ≡ fds y)
      → ((y : ℕ) → has y ys ≡ true → evn2 y ≡ evn y)
      → ((y : ℕ) → has y ys ≡ true → udata2 y ≡ udata y)
      → lookup fds2 evn2 udata2 g ys ≡ lookup fds evn udata g ys
  lookup_frame g [] s t u = refl
  lookup_frame g (y ∷ ys) s t u =
      rw
        (
          s y (ground arith),
          t y (ground arith),
          u y (ground arith),
          lookup_frame g ys (λ z h. s z (ground arith)) (λ z h. t z (ground arith))
              (λ z h. u z (ground arith)),
        )
        refl

module _ (fds evn udata : ℕ → ℕ) (i : ℕ) where
  pub absent-lookup :
      (g : ℕ) (ys : List ℕ) → absent fds g ys ≡ true → lookup fds evn udata g ys ≡ none
  absent-lookup g [] a = refl
  absent-lookup g (y ∷ ys) a =
      let e : (fds y == g) ≡ false = ground arith in rw e (absent-lookup g ys (ground arith))

  other : (g y : ℕ) → (fds i == g) ≡ false → (fds y == g) ≡ true → (y == i) ≡ false
  other g y ne e = elim (Bool-cases (y == i)) [
    | inl same ↦ absurd (ground (arith, ap (λ m. fds m) (==→eq y i same)))
    | inr apart ↦ apart
  ]

  -- The fields of a node are those of its own descriptor.
  pub lookup-put_other :
      (m u g : ℕ) (ys : List ℕ)
      → (fds i == g) ≡ false
      → lookup fds (put evn i m) (put udata i u) g ys ≡ lookup fds evn udata g ys
  lookup-put_other m u g [] ne = refl
  lookup-put_other m u g (y ∷ ys) ne = elim (Bool-cases (fds y == g)) [
    | inl e ↦ rw (e, other g y ne e) refl
    | inr e ↦ rw e (lookup-put_other m u g ys ne)
  ]

  pub lookup-put :
      (m u : ℕ) (ys : List ℕ)
      → distinct fds ys ≡ true
      → has i ys ≡ true
      → lookup fds (put evn i m) (put udata i u) (fds i) ys ≡ some (m, u)
  lookup-put m u [] d h = absurd (cc)
  lookup-put m u (y ∷ ys) d h = elim (Bool-cases (i == y)) [
    | inl e ↦ rw⁻¹ (==→eq i y e) (rw (==_self (fds i), ==_self i) refl)
    | inr e ↦
        let ne : (fds i == fds y) ≡ false =
          absent-apart fds (fds y) i ys (ground arith) (ground arith) in
        let ne2 : (fds y == fds i) ≡ false = ground arith in
        rw ne2 (lookup-put m u ys (ground arith) (ground arith))
  ]

  pub lookup-erase_other :
      (g : ℕ) (ys : List ℕ)
      → (fds i == g) ≡ false
      → lookup fds evn udata g (erase i ys) ≡ lookup fds evn udata g ys
  lookup-erase_other g [] ne = refl
  lookup-erase_other g (y ∷ ys) ne = elim (Bool-cases (i == y)) [
    | inl e ↦ rw e (sym (rw⁻¹ (==→eq i y e) (rw ne refl)))
    | inr e ↦
        rw e
          (ap (λ r. if fds y == g then some (evn y, udata y) else r) (lookup-erase_other g ys ne))
  ]

  absent-erase_self :
      (ys : List ℕ)
      → distinct fds ys ≡ true
      → has i ys ≡ true
      → absent fds (fds i) (erase i ys) ≡ true
  absent-erase_self [] d h = absurd (cc)
  absent-erase_self (y ∷ ys) d h = elim (Bool-cases (i == y)) [
    | inl e ↦ rw (e, ap fds (==→eq i y e)) (ground arith)
    | inr e ↦
        let ne : (fds i == fds y) ≡ false =
          absent-apart fds (fds y) i ys (ground arith) (ground arith) in
        let ne2 : (fds y == fds i) ≡ false = ground arith in
        rw (e, ne2) (absent-erase_self ys (ground arith) (ground arith))
  ]

  pub lookup-erase :
      (ys : List ℕ)
      → distinct fds ys ≡ true
      → has i ys ≡ true
      → lookup fds evn udata (fds i) (erase i ys) ≡ none
  lookup-erase ys d h = absent-lookup (fds i) (erase i ys) (absent-erase_self ys d h)
