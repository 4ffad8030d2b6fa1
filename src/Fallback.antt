-- ===== src/Fallback.antt =====
-- The operations that src/fallback/async.c deploys on the thread pool: the functions `yoa_...` that YOI_MKFALLBACK makes, over
-- the pool of Pool. A pointer or a value is its number, and a block of packed arguments goes by the request that it was
-- packed for.

pub mod Poll
use libyaooi.Prelude.{ℕ, Bool, true, false, List, ◌∷◌}
use libyaooi.Prelude.Int.{ℤ}
use libyaooi.Pool.{Pool, Result, ok, exec, happen, req_exec}

-- The structures `yoi_..._args_t`, by their operation.
pub data Call : Type 0 where
  read : (handle buff pn : ℕ) → Call
  write : (handle buff pn : ℕ) → Call
  sync : (fd : ℕ) → Call
  stat : (fd buff : ℕ) → Call
  file_read : (handle buff pn offset : ℕ) → Call
  file_write : (handle buff pn offset : ℕ) → Call
  file_symlink : (path target : ℕ) → Call
  file_hardlink : (path target : ℕ) → Call
  file_readlink : (path pres : ℕ) → Call
  file_remove : (path : ℕ) → Call
  dir_new : (path mode : ℕ) → Call
  dir_open : (pres path : ℕ) → Call
  dir_next : (dir pname : ℕ) → Call
  socket_connect : (pres proto addr port : ℕ) → Call
  socket_accept : (server pres paddr pport : ℕ) → Call
  proc_spawn : (pres flags argv env cwd pin pout perr : ℕ) → Call
  proc_wait : (proc psig pcode : ℕ) → Call
  dns_getaddrinfo : (pres name flags : ℕ) → Call
  sig_wait : (pres : ℕ) → Call

-- The blocks of arguments that are allocated.
abbrev pub Store : Type 0
Store = List (ℕ × Call)

-- The pool with the blocks, and the requests whose blocks were not taken by the pool.
pub record Deployed : Type 0 where
  pub pool : Pool
  pub store : Store
  pub refused : List ℕ

abbrev pub refuse : Result → ℕ → List ℕ → List ℕ
refuse ok r refused = refused
refuse _ r refused = r ∷ refused

-- `yoa_...`
unfoldable pub deployed : (block memory : Bool) → ℤ → ℕ → Call → Deployed → Deployed
deployed false memory created r c d = d
deployed true memory created r c d = record d {
  pool = happen (exec memory created r) d.pool;
  store = (r, c) ∷ d.store;
  refused = refuse (req_exec memory created r d.pool.workers).0 r d.refused;
}
