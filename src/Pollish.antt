-- ===== src/Pollish.antt =====
-- The asynchronous requests of one descriptor, src/unix/pollish.c: the list `fd->head`, the counters of
-- `fd->ioq` and the mask that is given to the poller. The poller (epoll or poll), its state and what
-- the operation itself returns are parameters.
pub mod Counted
pub mod First
pub mod Closed
pub mod Submit
pub mod Loop
mod Tests
use libyaooi.Prelude.{
  ℕ, suc, zero, ◌+◌, ◌-◌, ◌%◌, ◌/◌, Bool, true, false, ◌&&◌, not, Option, none, some, ◌==◌,
  if◌then◌else◌,
}
use libyaooi.Errno.{Code}
use libyaooi.Dlist.{Links, dlist_add, dlist_del}
use libyaooi.Queue.{Heap, req_begin, req_end, canceled}

pub data Kind : Type 0 where
  read write pread pwrite accept : Kind

-- YOI_PL_READABLE and YOI_PL_WRITABLE
abbrev pub readable : ℕ
readable = 1

abbrev pub writable : ℕ
writable = 2

abbrev pub tomask : Kind → ℕ
tomask Kind.read = readable
tomask Kind.pread = readable
tomask Kind.accept = readable
tomask Kind.write = writable
tomask Kind.pwrite = writable

-- A descriptor with its requests and their queues. `kind` is the requests' field of that name.
pub record Desc (B : Type 0) : Type 0 where
  pub links : Links
  pub kind : ℕ → Kind
  pub read_n : ℕ
  pub write_n : ℕ
  pub heap : Heap
  pub poller : B

-- What an `unsigned` wraps at.
abbrev pub unsigned : ℕ
unsigned = 4294967296

abbrev pub increment : ℕ → ℕ
increment n = (n + 1) % unsigned

abbrev pub decrement : ℕ → ℕ
decrement n = (n + (unsigned - 1)) % unsigned

-- `mask |= YOI_PL_READABLE` and `mask |= YOI_PL_WRITABLE` where there are requests.
abbrev pub wanted : ℕ → ℕ → ℕ
wanted read_n write_n =
    (if read_n == 0 then 0 else readable) + (if write_n == 0 then 0 else writable)

-- `mask & ready` is not 0, for a mask of one kind.
abbrev pub meets : ℕ → ℕ → Bool
meets mask ready = if mask == readable then not (ready % 2 == 0) else not (ready / 2 % 2 == 0)

abbrev pub is_eperm : Code → Bool
is_eperm Code.eperm = true
is_eperm _ = false

module _ {B : Type 0} where
  abbrev pub bump : (ℕ → ℕ) → Kind → Desc B → Desc B
  bump f k d =
      if tomask k == readable
      then record d { read_n = f d.read_n }
      else record d { write_n = f d.write_n }

  -- The part of `_yoi_pl_req_start` before the tests: the counter, the mask, `yoi_req_begin`.
  -- `setmask q mask` is `yoi_pl_impl_setmask(q, fd, fd->fd, mask)`.
  abbrev pub prepare : (setmask : ℕ → ℕ → B → Code × B) (cancel r : ℕ) → Desc B → Code × Desc B
  prepare setmask cancel r d =
      let d1 : Desc B = bump increment (d.kind r) d in
      let set : Code × B = setmask (d1.heap.req r).queue (wanted d1.read_n d1.write_n) d1.poller in
      (set.0, record d1 { poller = set.1; heap = req_begin r cancel d1.heap })

  -- `done` is what `_yoi_pl_req_do` returns where the operation is run at once, and `cancel` the address of
  -- `_yoi_pl_req_cancel`.
  unfoldable pub req_start :
      (setmask : ℕ → ℕ → B → Code × B) (cancel r : ℕ) (done : ℕ) → Desc B → Code × Desc B
  req_start setmask cancel r done d =
      let p : Code × Desc B = prepare setmask cancel r d in
      if is_eperm p.0
      then (Code.ok, record p.1 { heap = req_end r done p.1.heap })
      else (p.0, record p.1 { links = dlist_add r p.1.links })

  unfoldable pub req_stop : (setmask : ℕ → ℕ → B → Code × B) (r : ℕ) → Desc B → Code × Desc B
  req_stop setmask r d =
      let d1 : Desc B = bump decrement (d.kind r) d in
      let d2 : Desc B = record d1 { links = dlist_del r d1.links } in
      let set : Code × B = setmask (d2.heap.req r).queue (wanted d1.read_n d1.write_n) d2.poller in
      (set.0, record d2 { poller = set.1 })

  abbrev pub req_cancel_pl : (setmask : ℕ → ℕ → B → Code × B) (r : ℕ) → Desc B → Desc B
  req_cancel_pl setmask r d =
      let d1 : Desc B = (req_stop setmask r d).1 in record d1 { heap = req_end r canceled d1.heap }

  -- The loop of `_yoi_pl_get_req` from node `i`, with a bound on its rounds.
  unfoldable pub get_from : ℕ → ℕ → ℕ → Desc B → ℕ
  get_from zero i ready d = 0
  get_from (suc fuel) i ready d =
      let rest : ℕ = get_from fuel (d.links.next i) ready d in
      if i == 0 then 0 else (if meets (tomask (d.kind i)) ready then i else rest)

  abbrev pub get_req : ℕ → ℕ → Desc B → ℕ
  get_req fuel ready d = get_from fuel d.links.head ready d

  -- The loop of `yoi_unix_onclose` from node `i`, with a bound on its rounds.
  unfoldable pub onclose_from : (setmask : ℕ → ℕ → B → Code × B) → ℕ → ℕ → Desc B → Desc B
  onclose_from setmask zero i d = d
  onclose_from setmask (suc fuel) i d =
      let d1 : Desc B = record d {
        poller = (setmask (d.heap.req i).queue 0 d.poller).1;
        heap = req_end i canceled d.heap;
      } in
      let rest : Desc B = onclose_from setmask fuel (d1.links.next i) d1 in
      if i == 0 then d else rest

  abbrev pub onclose : (setmask : ℕ → ℕ → B → Code × B) → ℕ → Desc B → Desc B
  onclose setmask fuel d = onclose_from setmask fuel d.links.head d
