-- ===== src/Unix/Links/Bounds.antt =====
-- What `yo_file_readlink` stores, and when it writes behind its block.
use libyaooi.Prelude.{
  ℕ, ◌+◌, ◌≤◌, ◌<◌, ◌≡◌, refl, ap, ◌∙◌, ◌⊎◌, inl, inr, Option, none, some, List, [], ◌∷◌, ◌==◌,
  false, ltb, ltb→lt, ltb→le, Bool-cases, arith, length, take, take_all, length-take, All,
}
use libyaooi.Errno.{Code}
use libyaooi.Socket.{done}
use libyaooi.Windows.Env.{before_nul}
use libyaooi.Windows.Env.Read.{NotNul}
use libyaooi.Unix.Links.{Linked, terminated, returned, overrun, over, put, file_readlink}

-- A block in which a string is read back, up to its NUL.
abbrev pub Reads : List ℕ → Option (List ℕ) → Type 0
Reads target none = ⊥
Reads target (some block) = before_nul block ≡ target

Reads-some :
    (c : ℕ) (cs : List ℕ)
    → (c == 0) ≡ false
    → (o : Option (List ℕ)) → Reads cs o
    → Reads (c ∷ cs) (elim o [ none ↦ none | some rest ↦ some (c ∷ rest) ])
unfolding before_nul
Reads-some c cs e none r = absurd r
Reads-some c cs e (some rest) r = rw e (ap (λ t. c ∷ t) r)

Reads-put :
    (cs block : List ℕ)
    → All NotNul cs
    → length cs < length block
    → Reads cs (put (length cs) 0 (over cs block))
unfolding put over before_nul
Reads-put cs [] h l = absurd (omega (arith, l))
Reads-put [] (x ∷ block) h l = refl
Reads-put (c ∷ cs) (x ∷ block) (n, h) l =
    let e : (c == 0) ≡ false = ground arith in
    Reads-some c cs e _ (Reads-put cs block h (omega (arith, l)))

put_full : (cs block : List ℕ) → length cs ≡ length block → put (length cs) 0 (over cs block) ≡ none
unfolding put over
put_full [] [] h = refl
put_full [] (x ∷ block) h = absurd (omega (arith, h))
put_full (c ∷ cs) [] h = refl
put_full (c ∷ cs) (x ∷ block) h = rw (put_full cs block (omega (arith, h))) refl

-- A call that succeeds, with a string in its block.
abbrev pub Stored : List ℕ → Linked → Type 0
Stored target (returned code o) = (code ≡ some Code.ok) × Reads target o
Stored target overrun = ⊥

Stored-terminated :
    (target : List ℕ) (o : Option (List ℕ)) → Reads target o → Stored target (terminated o)
Stored-terminated target none r = absurd r
Stored-terminated target (some block) r = (refl, r)

-- A target without a NUL that is as long as lstat said, or shorter, is stored with its NUL in the block; one that is
-- longer, as a link may get between the two calls, has the NUL written behind the block.
pub file_readlink-Stored :
    (size : ℕ) (malloc : ℕ → Option (List ℕ)) (block target : List ℕ)
    → malloc (size + 1) ≡ some block
    → length block ≡ size + 1
    → All NotNul target
    → ((length target ≤ size) × Stored target (file_readlink (done size) malloc (done target)))
      ⊎ ((size < length target) × (file_readlink (done size) malloc (done target) ≡ overrun))
unfolding file_readlink
file_readlink-Stored size malloc block target m l h = elim (Bool-cases (ltb size (length target))) [
  | inr e ↦
      let s : length target ≤ size = ltb→le _ _ e in
      inl (
        s,
        rw (m, take_all (size + 1) target (omega (arith, s)))
            (Stored-terminated target _ (Reads-put target block h (omega (arith, s, l)))),
      )
  | inl e ↦
      let s : size < length target = ltb→lt _ _ e in
      inr (
        s,
        rw
            (
              m,
              put_full (take (size + 1) target) block
                  (length-take (size + 1) target (omega (arith, s)) ∙ omega (arith, l)),
            )
            refl,
      )
]
