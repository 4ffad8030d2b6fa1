-- ===== src/Poll/Round.antt =====
-- `yoi_pl_impl_poll` and `_yoi_poll_addfd` of src/unix/poll.c, over the nodes in the order of their list. Whether
-- realloc has memory and what the system's poll answers are parameters; the answer is that of the last
-- call, since an interrupted one is made again.
pub mod Overrun
pub mod Answer
mod Tests
use libyaooi.Prelude.{
  ℕ, suc, ◌+◌, ◌*◌, ◌/◌, ◌%◌, Bool, true, false, ◌||◌, ◌&&◌, not, Option, none, some, List, [], ◌∷◌,
  ◌++◌, ◌==◌, leb, if◌then◌else◌, length,
}
use libyaooi.Errno.{Code}

pub record Node : Type 0 where
  pub fd : ℕ
  pub evn : ℕ
  pub udata : ℕ

-- A `struct pollfd` as it is given to the system.
pub record Asked : Type 0 where
  pub fd : ℕ
  pub pollin : Bool
  pub pollout : Bool

pub record Revents : Type 0 where
  pub pollin : Bool
  pub pollout : Bool
  pub pollerr : Bool
  pub pollhup : Bool

-- The array: `fds_cap`, the entries that it has memory for, those that are filled in this call, and whether
-- an entry behind the memory was written.
pub record Fds : Type 0 where
  pub fds_cap : ℕ
  pub size : ℕ
  pub filled : List Asked
  pub overrun : Bool

-- YOI_PL_READABLE is 1 and YOI_PL_WRITABLE is 2.
abbrev pub asked : Node → Asked
asked node = record { fd = node.fd; pollin = node.evn % 2 == 1; pollout = node.evn / 2 % 2 == 1 }

abbrev pub grow : ℕ → ℕ
grow cap = if cap * 2 == 0 then 16 else cap * 2

-- `fds_cap` is changed before the memory is there.
abbrev pub grown : (has_memory : Bool) → Fds → Fds
grown has_memory s = record s {
  fds_cap = grow s.fds_cap;
  size = if has_memory then grow s.fds_cap else s.size;
}

-- The entry at `*pn`, and the one behind it, which is cleared.
abbrev pub fill : Node → Fds → Fds
fill node s = record s {
  filled = s.filled ++ (asked node ∷ []);
  overrun = s.overrun || leb s.size (length s.filled + 1);
}

abbrev pub is_full : Fds → Bool
is_full s = leb s.fds_cap (length s.filled)

unfoldable pub addfd : (has_memory : Bool) → Node → Fds → Bool × Fds
addfd has_memory node s =
    if is_full s
    then (if has_memory then (true, fill node (grown true s)) else (false, grown false s))
    else (true, fill node s)

-- The first loop of `yoi_pl_impl_poll`; `memory` is asked with the number of entries that are filled.
unfoldable pub add_all : (memory : ℕ → Bool) → List Node → Fds → Bool × Fds
add_all memory [] s = (true, s)
add_all memory (node ∷ nodes) s =
    let (added, s1) = addfd (memory (length s.filled)) node s in
    let rest = add_all memory nodes s1 in if added then rest else (false, s1)

abbrev pub ready_mask : Revents → ℕ
ready_mask r =
    (if r.pollin || r.pollerr || r.pollhup then 1 else 0)
    + (if r.pollout || r.pollerr || r.pollhup then 2 else 0)

-- The second loop: the data and the mask of the first node that is ready. `pollfd_i` is the place of a node.
unfoldable pub first_ready : List Node → List Revents → Option (ℕ × ℕ)
first_ready (node ∷ nodes) (r ∷ revents) =
    let later = first_ready nodes revents in
    if ready_mask r == 0 then later else some (node.udata, ready_mask r)
first_ready _ _ = none

abbrev pub polled : Option (ℕ × ℕ) → Code
polled none = Code.etimeout
polled (some _) = Code.ok

-- `yoi_pl_impl_poll`: the code, what is stored through `pudata` and `pready`, and the array.
unfoldable pub impl_poll :
    (memory : ℕ → Bool)
    → (List Asked → List Revents)
    → List Node
    → Fds
    → Code × Option (ℕ × ℕ) × Fds
impl_poll memory poll nodes s =
    let (added, s1) = add_all memory nodes (record s { filled = [] }) in
    let found = first_ready nodes (poll s1.filled) in
    if added then (polled found, found, s1) else (Code.enomem, none, s1)
