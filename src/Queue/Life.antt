-- ===== src/Queue/Life.antt =====
-- `yo_queue_new` and `yo_queue_free` of src/queue.c, with the block, the lock and the pool of a queue. What malloc and the backend's
-- set-up answer are arguments; the pool's threads are those of the pool.
use libyaooi.Prelude.{ℕ, ◌+◌, ◌-◌, ◌≡◌, refl, Bool, true, false, Option, none, some, arith}
use libyaooi.Errno.{Code}

-- What the process has: blocks, queues of the backend, and locks. A lock that is destroyed while it is held is counted.
pub record Owned : Type 0 where
  pub blocks : ℕ
  pub backends : ℕ
  pub locks : ℕ
  pub destroyed_held : ℕ

-- `yoi_queue_impl_init`, where none is YO_OK.
abbrev pub on_init : Option Code → Owned → Bool × Owned
on_init (some c) o = (false, o)
on_init none o = (true, record o { backends = o.backends + 1; locks = o.locks + 1 })

-- Whether a queue is given.
unfoldable pub queue_new : (memory : Bool) → (init : Option Code) → Owned → Bool × Owned
queue_new false init o = (false, o)
queue_new true init o = on_init init (record o { blocks = o.blocks + 1 })

-- The call returns, or it waits for ever for a thread of the pool that waits for the lock.
pub data Freed : Type 0 where
  returns : Owned → Freed
  waits : Freed

-- Behind `yoi_queue_impl_free`, with the lock held.
abbrev pub on_free : Option Code → Owned → Owned
on_free (some c) o = o
on_free none o = record o {
  blocks = o.blocks - 1;
  backends = o.backends - 1;
  locks = o.locks - 1;
  destroyed_held = o.destroyed_held + 1;
}

-- `waiting` is whether a thread of the pool has a request to end, which `yoi_pool_free` joins behind that.
unfoldable pub queue_free : (waiting : Bool) → (freed : Option Code) → Owned → Freed
queue_free true freed o = waits
queue_free false freed o = returns (on_free freed o)

-- What a queue has is given back, by a call that destroys its lock while it holds it.
queue_free-queue_new :
    (o : Owned)
    → ((queue_new true none o).0 ≡ true)
      × (queue_free false none (queue_new true none o).1
          ≡ returns (record o { destroyed_held = o.destroyed_held + 1 }))
unfolding queue_new queue_free
queue_free-queue_new o = (refl, same o _ _ _ (omega arith) (omega arith) (omega arith))
  where
    same :
        (o : Owned) (b k l : ℕ)
        → b ≡ o.blocks
        → k ≡ o.backends
        → l ≡ o.locks
        → returns
            (record { blocks = b; backends = k; locks = l; destroyed_held = o.destroyed_held + 1 })
          ≡ returns (record o { destroyed_held = o.destroyed_held + 1 })
    same o b k l e f g = rw (e, f, g) refl

-- Where the backend's set-up fails, the block is left.
queue_new_refused :
    (c : Code) (o : Owned) → queue_new true (some c) o ≡ (false, record o { blocks = o.blocks + 1 })
unfolding queue_new
queue_new_refused c o = refl
