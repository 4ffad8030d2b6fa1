-- ===== src/Poll.antt =====
-- The poll backend, `yoi_pl_impl_setmask` of src/unix/poll.c: the nodes that hold the descriptors, their
-- masks and the data to hand back, in an intrusive list. malloc is a parameter: the address it returns.
pub mod Masks
pub mod Search
pub mod Update
pub mod Round
mod Tests
use libyaooi.Prelude.{ℕ, suc, zero, ◌+◌, Bool, true, false, not, ◌==◌, if◌then◌else◌}
use libyaooi.Errno.{Code}
use libyaooi.Dlist.{Links, dlist_add, dlist_del}

-- The queue's part of the backend, and the fields of all nodes.
pub record Backend : Type 0 where
  pub links : Links
  pub fd : ℕ → ℕ
  pub evn : ℕ → ℕ
  pub udata : ℕ → ℕ

abbrev pub put : (ℕ → ℕ) → ℕ → ℕ → ℕ → ℕ
put f n v m = if m == n then v else f m

-- The loops that look for the node of a descriptor, from node `i`, with a bound on their rounds.
unfoldable pub find_from : ℕ → ℕ → ℕ → Backend → ℕ
find_from zero i fd b = 0
find_from (suc fuel) i fd b =
    let rest : ℕ = find_from fuel (b.links.next i) fd b in
    if i == 0 then 0 else (if b.fd i == fd then i else rest)

abbrev pub find : ℕ → ℕ → Backend → ℕ
find fuel fd b = find_from fuel b.links.head fd b

-- The assignments behind the search.
abbrev pub set_fields : (i udata mask : ℕ) → Backend → Backend
set_fields i udata mask b = record b { evn = put b.evn i mask; udata = put b.udata i udata }

abbrev pub add_node : (new fd : ℕ) → Backend → Backend
add_node new fd b = record b { fd = put b.fd new fd; links = dlist_add new b.links }

unfoldable pub setmask : (fuel new : ℕ) → (udata fd mask : ℕ) → Backend → Code × Backend
setmask fuel new udata fd mask b =
    let i : ℕ = find fuel fd b in
    if mask == 0
    then (Code.ok, if i == 0 then b else record b { links = dlist_del i b.links })
    else (if i == 0
        then (if new == 0
            then (Code.enomem, b)
            else (Code.ok, set_fields new udata mask (add_node new fd b)))
        else (Code.ok, set_fields i udata mask b))
