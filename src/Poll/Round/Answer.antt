-- ===== src/Poll/Round/Answer.antt =====
-- What `yoi_pl_impl_poll` asks the system, and what it makes of the answer.
use mathlib.Core.List.{append-nil, append_assoc}
use libyaooi.Prelude.{
  zero, suc, ℕ, ◌≡◌, ◌≢◌, refl, ap, sym, ◌<◌, ◌∙◌, Bool, true, false, Bool-cases, inl, inr, some,
  List, [], ◌∷◌, ◌++◌, ◌==◌, length, arith, All,
}
use libyaooi.Errno.{Code}
use libyaooi.Poll.Round.{
  Node, Asked, Revents, Fds, asked, grown, fill, is_full, add_all, ready_mask, first_ready, polled,
  impl_poll,
}
use libyaooi.Poll.Round.Overrun.{array, add_all-fill, add_all-grown, first_room, overrun-impl_poll}

-- What a mask asks for, row by row: YOI_PL_READABLE is 1 and YOI_PL_WRITABLE is 2.
abbrev pub wants : (fd mask : ℕ) → Asked
wants fd zero = record { fd = fd; pollin = false; pollout = false }
wants fd (suc zero) = record { fd = fd; pollin = true; pollout = false }
wants fd (suc (suc zero)) = record { fd = fd; pollin = false; pollout = true }
wants fd (suc (suc (suc mask))) = record { fd = fd; pollin = true; pollout = true }

abbrev pub all_wanted : List Node → List Asked
all_wanted [] = []
all_wanted (node ∷ nodes) = wants node.fd node.evn ∷ all_wanted nodes

-- What a report means: an error or the end of the other side is both.
abbrev pub means : (pollin pollout pollerr pollhup : Bool) → ℕ
means pollin pollout true pollhup = 3
means pollin pollout false true = 3
means false false false false = 0
means true false false false = 1
means false true false false = 2
means true true false false = 3

abbrev pub meaning : Revents → ℕ
meaning r = means r.pollin r.pollout r.pollerr r.pollhup

ready_mask-means :
    (a b c d : Bool)
    → ready_mask (record { pollin = a; pollout = b; pollerr = c; pollhup = d }) ≡ means a b c d
ready_mask-means false false true d = refl
ready_mask-means false true true d = refl
ready_mask-means true false true d = refl
ready_mask-means true true true d = refl
ready_mask-means false false false true = refl
ready_mask-means false true false true = refl
ready_mask-means true false false true = refl
ready_mask-means true true false true = refl
ready_mask-means false false false false = refl
ready_mask-means true false false false = refl
ready_mask-means false true false false = refl
ready_mask-means true true false false = refl

-- The mask of a node has no other bits.
abbrev pub IsMask : Node → Type 0
IsMask node = node.evn < 4

asked-wants :
    (fd evn udata : ℕ)
    → evn < 4
    → asked (record { fd = fd; evn = evn; udata = udata }) ≡ wants fd evn
asked-wants fd zero udata h = refl
asked-wants fd (suc zero) udata h = refl
asked-wants fd (suc (suc zero)) udata h = refl
asked-wants fd (suc (suc (suc zero))) udata h = refl
asked-wants fd (suc (suc (suc (suc n)))) udata h = absurd (omega (arith, h))

abbrev pub all_asked : List Node → List Asked
all_asked [] = []
all_asked (node ∷ nodes) = asked node ∷ all_asked nodes

module _ (memory : ℕ → Bool) (enough : (i : ℕ) → memory i ≡ true) where
  added-add_all : (nodes : List Node) (s : Fds) → (add_all memory nodes s).0 ≡ true
  unfolding add_all
  added-add_all [] s = refl
  added-add_all (node ∷ nodes) s = elim (Bool-cases (is_full s)) [
    | inl e ↦
        ap (λ r. r.0) (add_all-grown memory enough node nodes s e)
        ∙ added-add_all nodes (fill node (grown true s))
    | inr e ↦
        ap (λ r. r.0) (add_all-fill memory enough node nodes s e)
        ∙ added-add_all nodes (fill node s)
  ]

  filled-add_all :
      (nodes : List Node) (s : Fds)
      → (add_all memory nodes s).1.filled ≡ s.filled ++ all_asked nodes
  unfolding add_all
  filled-add_all [] s = sym (append-nil s.filled)
  filled-add_all (node ∷ nodes) s = elim (Bool-cases (is_full s)) [
    | inl e ↦
        ap (λ r. r.1.filled) (add_all-grown memory enough node nodes s e)
        ∙ filled-add_all nodes (fill node (grown true s))
        ∙ append_assoc s.filled (asked node ∷ []) (all_asked nodes)
    | inr e ↦
        ap (λ r. r.1.filled) (add_all-fill memory enough node nodes s e)
        ∙ filled-add_all nodes (fill node s)
        ∙ append_assoc s.filled (asked node ∷ []) (all_asked nodes)
  ]

-- Nothing is reported of the descriptor.
abbrev pub IsIdle : Revents → Type 0
IsIdle r = (r.pollin ≡ false) × (r.pollout ≡ false) × (r.pollerr ≡ false) × (r.pollhup ≡ false)

ready_mask-idle : (r : Revents) → IsIdle r → ready_mask r ≡ 0
ready_mask-idle r (a, b, c, d) = rw a (rw b (rw c (rw d refl)))

first_ready-append :
    (before : List Node) (node : Node) (after : List Node) (bs : List Revents) (r : Revents)
    (rs : List Revents)
    → length bs ≡ length before
    → All IsIdle bs
    → ready_mask r ≢ 0
    → first_ready (before ++ (node ∷ after)) (bs ++ (r ∷ rs)) ≡ some (node.udata, ready_mask r)
unfolding first_ready
first_ready-append [] node after [] r rs l h n =
    let e : (ready_mask r == 0) ≡ false = ground arith in rw e refl
first_ready-append [] node after (b ∷ bs) r rs l h n = absurd (omega (arith, l))
first_ready-append (a ∷ before) node after [] r rs l h n = absurd (omega (arith, l))
first_ready-append (a ∷ before) node after (b ∷ bs) r rs l (i, h) n =
    let e : (ready_mask b == 0) ≡ true = rw (ready_mask-idle b i) refl in
    rw e (first_ready-append before node after bs r rs (omega (arith, l)) h n)

all_asked-all_wanted : (nodes : List Node) → All IsMask nodes → all_asked nodes ≡ all_wanted nodes
all_asked-all_wanted [] h = refl
all_asked-all_wanted (node ∷ nodes) (h, hs) =
    ap (λ a. a ∷ all_asked nodes) (asked-wants node.fd node.evn node.udata h)
    ∙ ap (λ t. wants node.fd node.evn ∷ t) (all_asked-all_wanted nodes hs)

-- `yoi_pl_impl_poll` asks for every descriptor of its list, in its order, for what the two bits of its mask say; and where there
-- is memory, and there are fewer than the array has entries, it gives the data of the first one of which the system reports
-- anything, with the mask that the report means, in which an error or a hang-up is both; and it writes inside the array only.
pub impl_poll_lem :
    (memory : ℕ → Bool) (poll : List Asked → List Revents) (cap : ℕ)
    → (before : List Node) (node : Node) (after : List Node)
    → (bs : List Revents) (r : Revents) (rs : List Revents) → ((i : ℕ) → memory i ≡ true)
    → length (before ++ (node ∷ after)) < first_room cap
    → All IsMask (before ++ (node ∷ after))
    → poll (all_wanted (before ++ (node ∷ after))) ≡ bs ++ (r ∷ rs)
    → length bs ≡ length before
    → All IsIdle bs
    → meaning r ≢ 0
    → ((impl_poll memory poll (before ++ (node ∷ after)) (array cap)).0 ≡ Code.ok)
      × ((impl_poll memory poll (before ++ (node ∷ after)) (array cap)).1
          ≡ some (node.udata, meaning r))
      × ((impl_poll memory poll (before ++ (node ∷ after)) (array cap)).2.overrun ≡ false)
unfolding impl_poll
impl_poll_lem memory poll cap before node after bs r rs enough room masks answer l h n =
    let nodes = before ++ (node ∷ after) in
    let same : ready_mask r ≡ meaning r = ready_mask-means r.pollin r.pollout r.pollerr r.pollhup in
    let added = added-add_all memory enough nodes (array cap) in
    let full = filled-add_all memory enough nodes (array cap) in
    let found =
      ap (λ asks. first_ready nodes (poll asks)) (full ∙ all_asked-all_wanted nodes masks)
      ∙ ap (λ a. first_ready nodes a) answer
      ∙ first_ready-append before node after bs r rs l h (λ z. n (sym same ∙ z))
      ∙ ap (λ m. some (node.udata, m)) same in
    (
      rw added (ap polled found),
      rw added found,
      overrun-impl_poll memory poll nodes cap enough ∙ ground arith,
    )
