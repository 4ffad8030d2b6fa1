-- ===== src/Dlist.antt =====
-- The doubly linked lists of src/utils/lists.h, `yoi_dlist_add` and `yoi_dlist_del`. A node is an
-- address, 0 is NULL, and a node's slot points at the pointer that points at the node: the head of
-- the list or the `next` field of the node before.
pub mod Chain
pub mod Add
pub mod Del
mod Tests
use libyaooi.Prelude.{ℕ, Bool, ◌==◌, if◌then◌else◌}

pub data Slot : Type 0 where
  at_head : Slot
  at_next : ℕ → Slot

-- The head pointer of one list and the link fields of all nodes.
pub record Links : Type 0 where
  pub head : ℕ
  pub next : ℕ → ℕ
  pub slot : ℕ → Slot

abbrev pub update {ℓ} : {A : Type ℓ} → (ℕ → A) → ℕ → A → ℕ → A
update f n v m = if m == n then v else f m

-- `*slot = p`
store : Slot → ℕ → Links → Links
store at_head p l = record l { head = p }
store (at_next n) p l = record l { next = update l.next n p }

unfoldable pub dlist_add : ℕ → Links → Links
dlist_add node l =
    let l1 : Links = record l {
      next = update l.next node l.head;
      slot = update l.slot node at_head;
    } in
    let l2 : Links =
      if l1.head == 0 then l1 else record l1 { slot = update l1.slot l1.head (at_next node) } in
    record l2 { head = node }

unfoldable pub dlist_del : ℕ → Links → Links
unfolding store
dlist_del node l =
    let l1 : Links =
      if l.next node == 0
      then l
      else record l { slot = update l.slot (l.next node) (l.slot node) } in
    store (l1.slot node) (l1.next node) l1
