-- ===== src/Poll/Update.antt =====
-- `yoi_pl_impl_setmask` of the poll backend as an update of a map from descriptors to masks and data.
use libyaooi.Prelude.{
  ℕ, ◌≡◌, ◌≢◌, ◌<◌, refl, ap, ◌∙◌, true, false, Option, none, some, List, ◌∷◌, ◌==◌, if◌then◌else◌,
  arith, length, Bool-cases, inl, inr, ==_self, ==→eq,
}
use libyaooi.Errno.{Code}
use libyaooi.Dlist.{dlist_del}
use libyaooi.Dlist.Chain.{has, erase, apart, Spells}
use libyaooi.Dlist.Add.{dlist_add_lem}
use libyaooi.Dlist.Del.{dlist_del_lem}
use libyaooi.Poll.{Backend, put, find, set_fields, add_node, setmask}
use libyaooi.Poll.Masks.{
  absent, distinct, lookup, distinct-erase, absent_frame, distinct_frame, lookup_frame, lookup-put,
  lookup-put_other, lookup-erase, lookup-erase_other, absent-lookup,
}
use libyaooi.Poll.Search.{Found, missing, found, find-Found}

-- The nodes of the backend are `xs`, and no two have one descriptor.
abbrev pub Registered : Backend → List ℕ → Type 0
Registered b xs = Spells b.links xs × (distinct b.fd xs ≡ true)

-- What the backend's nodes say of a descriptor.
abbrev pub asked : Backend → List ℕ → ℕ → Option (ℕ × ℕ)
asked b xs g = lookup b.fd b.evn b.udata g xs

-- The backend's nodes are some list that says of the descriptor `fd` what `new` says and of the others what
-- the nodes `xs` of `old` say.
abbrev pub Updated : Backend → List ℕ → (fd : ℕ) → Option (ℕ × ℕ) → Backend → Type 0
Updated old xs fd new b =
    (ys : List ℕ) × Registered b ys
    × ((g : ℕ) → asked b ys g ≡ (if g == fd then new else asked old xs g))

module _ (b : Backend) (xs : List ℕ) (r : Registered b xs) where
  removed :
      (i : ℕ)
      → has i xs ≡ true
      → Updated b xs (b.fd i) none (record b { links = dlist_del i b.links })
  removed i h = (erase i xs, (dlist_del_lem i b.links xs h r.0, distinct-erase b.fd i xs r.1), says)
    where
      says : (g : ℕ) → asked b (erase i xs) g ≡ (if g == b.fd i then none else asked b xs g)
      says g = elim (Bool-cases (g == b.fd i)) [
        | inl e ↦ rw e (
            ap (asked b (erase i xs)) (==→eq g (b.fd i) e)
            ∙ lookup-erase b.fd b.evn b.udata i xs r.1 h)
        | inr e ↦ rw e (lookup-erase_other b.fd b.evn b.udata i g xs (ground arith))
      ]

  changed :
      (i udata mask : ℕ)
      → has i xs ≡ true
      → Updated b xs (b.fd i) (some (mask, udata)) (set_fields i udata mask b)
  changed i udata mask h = (xs, r, says)
    where
      says :
          (g : ℕ)
          → asked (set_fields i udata mask b) xs g
            ≡ (if g == b.fd i then some (mask, udata) else asked b xs g)
      says g = elim (Bool-cases (g == b.fd i)) [
        | inl e ↦ rw e (
            ap (asked (set_fields i udata mask b) xs) (==→eq g (b.fd i) e)
            ∙ lookup-put b.fd b.evn b.udata i mask udata xs r.1 h)
        | inr e ↦ rw e (lookup-put_other b.fd b.evn b.udata i mask udata g xs (ground arith))
      ]

  removed_at :
      (i fd : ℕ)
      → b.fd i ≡ fd
      → has i xs ≡ true
      → Updated b xs fd none (record b { links = dlist_del i b.links })
  removed_at i fd own h = rw⁻¹ own (removed i h)

  changed_at :
      (i fd udata mask : ℕ)
      → b.fd i ≡ fd
      → has i xs ≡ true
      → Updated b xs fd (some (mask, udata)) (set_fields i udata mask b)
  changed_at i fd udata mask own h = rw⁻¹ own (changed i udata mask h)

  untouched : (fd : ℕ) → absent b.fd fd xs ≡ true → Updated b xs fd none b
  untouched fd a = (xs, r, says)
    where
      says : (g : ℕ) → asked b xs g ≡ (if g == fd then none else asked b xs g)
      says g = elim (Bool-cases (g == fd)) [
        | inl e ↦
            rw e (ap (asked b xs) (==→eq g fd e) ∙ absent-lookup b.fd b.evn b.udata fd fd xs a)
        | inr e ↦ rw e refl
      ]

  added :
      (new fd udata mask : ℕ)
      → new ≢ 0
      → has new xs ≡ false
      → absent b.fd fd xs ≡ true
      → Updated b xs fd (some (mask, udata)) (set_fields new udata mask (add_node new fd b))
  added new fd udata mask nz out a = (
    new ∷ xs,
    (
      dlist_add_lem new b.links xs nz out r.0,
      rw (==_self new) (
          rw
            (
              absent_frame {fds = b.fd} fd xs (kept b.fd fd),
              distinct_frame {fds = b.fd} xs (kept b.fd fd),
              a,
            )
            r.1),
    ),
    says,
  )
    where
      kept : (f : ℕ → ℕ) (v y : ℕ) → has y xs ≡ true → put f new v y ≡ f y
      kept f v y h = rw (apart y new xs out h) refl

      says :
          (g : ℕ)
          → asked (set_fields new udata mask (add_node new fd b)) (new ∷ xs) g
            ≡ (if g == fd then some (mask, udata) else asked b xs g)
      says g = rw (==_self new) (elim (Bool-cases (g == fd)) [
        | inl e ↦ let e2 : (fd == g) ≡ true = ground arith in rw (e, e2) refl
        | inr e ↦
            let e2 : (fd == g) ≡ false = ground arith in
            rw (e, e2) (lookup_frame g xs (kept b.fd fd) (kept b.evn mask) (kept b.udata udata))
      ])

-- Where malloc gives a fresh address and the search has more rounds than there are nodes, `yoi_pl_impl_setmask`
-- returns YO_OK, no two nodes have one descriptor, a mask of 0 forgets the descriptor, any other mask is kept for it
-- with its data, and what is kept for the other descriptors stays.
pub setmask_lem :
    (fuel new udata fd mask : ℕ) (b : Backend) (xs : List ℕ)
    → Registered b xs
    → length xs < fuel
    → new ≢ 0
    → has new xs ≡ false
    → ((setmask fuel new udata fd mask b).0 ≡ Code.ok)
      × Updated b xs fd
          (if mask == 0 then none else some (mask, udata))
          ((setmask fuel new udata fd mask b).1)
unfolding setmask
setmask_lem fuel new udata fd mask b xs r lt nz out = set (find-Found fuel fd b xs r.0 lt) refl
  where
    set :
        {i : ℕ}
        → Found b.fd fd xs i
        → find fuel fd b ≡ i
        → ((setmask fuel new udata fd mask b).0 ≡ Code.ok)
          × Updated b xs fd
              (if mask == 0 then none else some (mask, udata))
              ((setmask fuel new udata fd mask b).1)
    set (missing a) e =
        let none_new : (new == 0) ≡ false = ground arith in
        elim (Bool-cases (mask == 0)) [
          | inl z ↦ simp (e, z) (refl, untouched b xs r fd a)
          | inr z ↦ simp (e, z, none_new) (refl, added b xs r new fd udata mask nz out a)
        ]
    set (found {i} ne h own) e =
        let there : (i == 0) ≡ false = ground arith in
        elim (Bool-cases (mask == 0)) [
          | inl z ↦ simp (e, z, there) (refl, removed_at b xs r i fd own h)
          | inr z ↦ simp (e, z, there) (refl, changed_at b xs r i fd udata mask own h)
        ]
