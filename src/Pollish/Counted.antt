-- ===== src/Pollish/Counted.antt =====
-- The counters of a descriptor count its pending requests, and the poller is asked for what they need.
use libyaooi.Prelude.{
  ℕ, ◌≡◌, ◌≢◌, ◌<◌, ◌≤◌, ◌+◌, suc, refl, sym, ap, ◌∙◌, true, false, List, [], ◌∷◌, ◌==◌,
  if◌then◌else◌, arith, Bool-cases, inl, inr, ==→eq, ==_self, length,
}
use libyaooi.Errno.{Code}
use libyaooi.Dlist.{dlist_add}
use libyaooi.Dlist.Chain.{has, Spells, erase}
use libyaooi.Dlist.Add.{dlist_add_lem}
use libyaooi.Dlist.Del.{dlist_del_lem}
use libyaooi.Pollish.{
  Kind, Desc, tomask, readable, writable, unsigned, increment, decrement, wanted, prepare, is_eperm,
  bump, req_start, req_stop,
}

-- Whether a kind waits for the mask `m`, as a number.
unfoldable pub waits : ℕ → Kind → ℕ
waits m k = if tomask k == m then 1 else 0

-- How many of the requests `xs` wait for the mask `m`.
unfoldable pub waiting : (ℕ → Kind) → ℕ → List ℕ → ℕ
waiting kind m [] = 0
waiting kind m (x ∷ xs) = waits m (kind x) + waiting kind m xs

-- The pending requests are `xs`, fewer than an `unsigned` counts, and the counters are theirs.
abbrev pub Counted : {B : Type 0} → Desc B → List ℕ → Type 0
Counted d xs =
    Spells d.links xs
    × (d.read_n ≡ waiting d.kind readable xs)
    × (d.write_n ≡ waiting d.kind writable xs)
    × (length xs < unsigned)

waiting-cons :
    (kind : ℕ → Kind) (m x : ℕ) (xs : List ℕ)
    → waiting kind m (x ∷ xs) ≡ waits m (kind x) + waiting kind m xs
unfolding waiting
waiting-cons kind m x xs = refl

waiting_le : (kind : ℕ → Kind) (m : ℕ) (xs : List ℕ) → waiting kind m xs ≤ length xs
unfolding waiting waits
waiting_le kind m [] = ground arith
waiting_le kind m (x ∷ xs) = ground (arith, waiting_le kind m xs)

waiting-erase :
    (kind : ℕ → Kind) (m n : ℕ) (xs : List ℕ)
    → has n xs ≡ true
    → waiting kind m xs ≡ waits m (kind n) + waiting kind m (erase n xs)
unfolding waiting
waiting-erase kind m n [] h = absurd (cc)
waiting-erase kind m n (x ∷ xs) h = elim (Bool-cases (n == x)) [
  | inl e ↦ rw (e, ==→eq n x e) refl
  | inr e ↦ rw (e, waiting-erase kind m n xs (ground arith)) (omega arith)
]

-- A kind waits for one of the two masks.
data Side (k : Kind) : Type 0 where
  reads : tomask k ≡ readable → Side k
  writes : tomask k ≡ writable → Side k

side : (k : Kind) → Side k
side Kind.read = reads refl
side Kind.pread = reads refl
side Kind.accept = reads refl
side Kind.write = writes refl
side Kind.pwrite = writes refl

length-erase : (n : ℕ) (xs : List ℕ) → has n xs ≡ true → length xs ≡ suc (length (erase n xs))
length-erase n [] h = absurd (cc)
length-erase n (x ∷ xs) h = elim (Bool-cases (n == x)) [
  | inl e ↦ rw e refl
  | inr e ↦ rw e (ap suc (length-erase n xs (ground arith)))
]

-- The step of a counter, for a request of its side and of the other.
module _ (m : ℕ) (k : Kind) (n w : ℕ) where
  increment_lem :
      (bound : ℕ)
      → tomask k ≡ m
      → n ≡ w
      → w ≤ bound
      → suc bound < unsigned
      → increment n ≡ waits m k + w
  unfolding waits
  increment_lem bound a e le lt = rw (a, ==_self m) (ground arith)

  kept_more : {m2 : ℕ} → tomask k ≡ m2 → (m2 == m) ≡ false → n ≡ w → n ≡ waits m k + w
  unfolding waits
  kept_more a ne e = e ∙ rw (a, ne) (omega arith)

  decrement_lem :
      (bound : ℕ)
      → tomask k ≡ m
      → n ≡ waits m k + w
      → n ≤ bound
      → bound < unsigned
      → decrement n ≡ w
  unfolding waits
  decrement_lem bound a e le lt = let e1 : n ≡ 1 + w = e ∙ rw (a, ==_self m) refl in ground arith

  kept_less : {m2 : ℕ} → tomask k ≡ m2 → (m2 == m) ≡ false → n ≡ waits m k + w → n ≡ w
  unfolding waits
  kept_less a ne e = e ∙ rw (a, ne) (omega arith)

module _ {B : Type 0} (f : ℕ → ℕ) (k : Kind) (d : Desc B) where
  bump-kind : (bump f k d).kind ≡ d.kind
  bump-kind = elim (Bool-cases (tomask k == readable)) [ inl e ↦ rw e refl | inr e ↦ rw e refl ]

  bump-links : (bump f k d).links ≡ d.links
  bump-links = elim (Bool-cases (tomask k == readable)) [ inl e ↦ rw e refl | inr e ↦ rw e refl ]

  bump-heap : (bump f k d).heap ≡ d.heap
  bump-heap = elim (Bool-cases (tomask k == readable)) [ inl e ↦ rw e refl | inr e ↦ rw e refl ]

  bump-poller : (bump f k d).poller ≡ d.poller
  bump-poller = elim (Bool-cases (tomask k == readable)) [ inl e ↦ rw e refl | inr e ↦ rw e refl ]

module _ {B : Type 0} (setmask : ℕ → ℕ → B → Code × B) where
  prepare-Counted :
      (cancel r : ℕ) (d : Desc B) (xs : List ℕ)
      → Counted d xs
      → r ≢ 0
      → has r xs ≡ false
      → suc (length xs) < unsigned
      → (let d2 : Desc B = (prepare setmask cancel r d).1 in
          Counted (record d2 { links = dlist_add r d2.links }) (r ∷ xs))
  prepare-Counted cancel r d xs (c, rs, ws, lt) ne out room = elim (side (d.kind r)) [
    | reads a ↦ simp a (
      dlist_add_lem r d.links xs ne out c,
      increment_lem readable (d.kind r) d.read_n _ (length xs) a rs (waiting_le d.kind readable xs)
            room
          ∙ sym (waiting-cons d.kind readable r xs),
      kept_more writable (d.kind r) d.write_n _ a refl ws ∙ sym (waiting-cons d.kind writable r xs),
      room,
    )
    | writes a ↦ simp a (
      dlist_add_lem r d.links xs ne out c,
      kept_more readable (d.kind r) d.read_n _ a refl rs ∙ sym (waiting-cons d.kind readable r xs),
      increment_lem writable (d.kind r) d.write_n _ (length xs) a ws (waiting_le d.kind writable xs)
            room
          ∙ sym (waiting-cons d.kind writable r xs),
      room,
    )
  ]

  -- A request that is started on a descriptor whose poller does not refuse it with EPERM is the first of the
  -- pending ones, and the counters still count them, if they stay below the limit of an `unsigned`.
  pub req_start-Counted :
      (cancel r done : ℕ) (d : Desc B) (xs : List ℕ)
      → Counted d xs
      → r ≢ 0
      → has r xs ≡ false
      → suc (length xs) < unsigned
      → is_eperm ((prepare setmask cancel r d).0) ≡ false
      → Counted ((req_start setmask cancel r done d).1) (r ∷ xs)
  unfolding req_start
  req_start-Counted cancel r done d xs k ne out room e =
      rw e (prepare-Counted cancel r d xs k ne out room)

  -- A pending request that is stopped is taken out, and the counters count those that remain.
  pub req_stop-Counted :
      (r : ℕ) (d : Desc B) (xs : List ℕ)
      → Counted d xs
      → has r xs ≡ true
      → Counted ((req_stop setmask r d).1) (erase r xs)
  unfolding req_stop
  req_stop-Counted r d xs (c, rs, ws, lt) h =
      let shorter : length (erase r xs) < unsigned = ground (arith, length-erase r xs h) in
      elim (side (d.kind r)) [
        | reads a ↦ simp a (
          dlist_del_lem r d.links xs h c,
          decrement_lem readable (d.kind r) d.read_n _ (length xs) a
              (rs ∙ waiting-erase d.kind readable r xs h) (rw rs (waiting_le d.kind readable xs))
              lt,
          kept_less writable (d.kind r) d.write_n _ a refl
              (ws ∙ waiting-erase d.kind writable r xs h),
          shorter,
        )
        | writes a ↦ simp a (
          dlist_del_lem r d.links xs h c,
          kept_less readable (d.kind r) d.read_n _ a refl
              (rs ∙ waiting-erase d.kind readable r xs h),
          decrement_lem writable (d.kind r) d.write_n _ (length xs) a
              (ws ∙ waiting-erase d.kind writable r xs h) (rw ws (waiting_le d.kind writable xs))
              lt,
          shorter,
        )
      ]

  -- The mask that the poller is given when a pending request is stopped is that of the requests that remain.
  pub req_stop-wanted :
      (r : ℕ) (d : Desc B) (xs : List ℕ)
      → Counted d xs
      → has r xs ≡ true
      → (let set =
            setmask
              (d.heap.req r).queue
              (wanted (waiting d.kind readable (erase r xs)) (waiting d.kind writable (erase r xs)))
              d.poller in
          ((req_stop setmask r d).0 ≡ set.0) × ((req_stop setmask r d).1.poller ≡ set.1))
  unfolding req_stop
  req_stop-wanted r d xs k h =
      let (c2, r2, w2, l2) = req_stop-Counted r d xs k h in
      rw
        (
          bump-heap decrement (d.kind r) d,
          bump-poller decrement (d.kind r) d,
          r2,
          w2,
          bump-kind decrement (d.kind r) d,
        )
        (refl, refl)

  -- A request that the poller refuses with EPERM is run at once: YO_OK is returned and the pending requests are the
  -- same, but the counters count the request with them.
  pub req_start-eperm :
      (cancel r done : ℕ) (d : Desc B) (xs : List ℕ)
      → Counted d xs
      → r ≢ 0
      → has r xs ≡ false
      → suc (length xs) < unsigned
      → is_eperm ((prepare setmask cancel r d).0) ≡ true
      → (let d2 : Desc B = (req_start setmask cancel r done d).1 in
          ((req_start setmask cancel r done d).0 ≡ Code.ok)
          × Spells d2.links xs
          × (d2.read_n ≡ waiting d2.kind readable (r ∷ xs))
          × (d2.write_n ≡ waiting d2.kind writable (r ∷ xs)))
  unfolding req_start
  req_start-eperm cancel r done d xs k ne out room e =
      let (c2, r2, w2, l2) = prepare-Counted cancel r d xs k ne out room in
      rw e (refl, rw (bump-links increment (d.kind r) d) k.0, r2, w2)
