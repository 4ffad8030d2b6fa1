-- ===== src/Windows/Sockets/Held.antt =====
-- What the functions of src/win/impl.c that make a handle hold when they return.
use libyaooi.Prelude.{
  ℕ, ◌+◌, ◌≡◌, ◌≢◌, refl, ap, ==→eq, Bool, true, false, Bool-cases, inl, inr, Option, none, some,
  ◌==◌, arith, count,
}
use libyaooi.Errno.{Code}
use libyaooi.Windows.Cmdline.{Text}
use libyaooi.Spawn.Held.{at_end}
use libyaooi.Windows.Spawn.{Attempt, given, denied, Handles, free, malloc}
use libyaooi.Windows.Files.{CreateFlags, Reply, on_file, file_open, create_flags}
use libyaooi.Windows.Sockets.{socket_connect, socket_bind, socket_accept}

abbrev pub blocks_of : Option ℕ → ℕ
blocks_of none = 0
blocks_of (some h) = 1

-- Beyond the open handles of number `n` and the blocks that were there, those of the result.
abbrev pub Held : ℕ → Handles → Reply → Type 0
Held n l r =
    (count n r.left.opened + count n l.closed
      ≡ count n l.opened + count n r.left.closed + at_end n r.handle)
    × (r.left.blocks ≡ l.blocks + blocks_of r.handle)

module _ (n : ℕ) (l : Handles) where
  connected-Held :
      (memory : Bool) (sock : Attempt ℕ) (r : Attempt Unit)
      → Held n l (socket_connect memory sock r l)
  unfolding socket_connect
  connected-Held false sock r = (omega arith, omega arith)
  connected-Held true (denied e) r = (omega arith, omega arith)
  connected-Held true (given s) (denied e) = (omega arith, omega arith)
  connected-Held true (given s) (given _) = (omega arith, omega arith)

  bound-Held :
      (memory : Bool) (sock : Attempt ℕ) (a b c : Attempt Unit)
      → Held n l (socket_bind memory sock a b c l)
  unfolding socket_bind
  bound-Held false sock a b c = (omega arith, omega arith)
  bound-Held true (denied e) a b c = (omega arith, omega arith)
  bound-Held true (given s) (denied e) b c = (omega arith, omega arith)
  bound-Held true (given s) (given _) (denied e) c = (omega arith, omega arith)
  bound-Held true (given s) (given _) (given _) (denied e) = (omega arith, omega arith)
  bound-Held true (given s) (given _) (given _) (given _) = (omega arith, omega arith)

  on_file-Held : (r : Attempt ℕ) → Held n l (on_file r (free (malloc (malloc l))))
  on_file-Held (denied e) = (omega arith, omega arith)
  on_file-Held (given h) = (omega arith, omega arith)

  opened-Held :
      (memory : Bool) (wpath : Attempt Text) (create : Text → CreateFlags → Attempt ℕ) (flags : ℕ)
      → Held n l (file_open memory wpath create flags l)
  unfolding file_open
  opened-Held false wpath create flags = (omega arith, omega arith)
  opened-Held true (denied e) create flags = (omega arith, omega arith)
  opened-Held true (given wpath) create flags = on_file-Held (create wpath (create_flags flags))

-- `yo_socket_connect`, `yo_socket_bind` and `yo_file_open` of the Windows port hold a handle and a block more where they
-- give a handle, and nothing more where they do not, whichever of their calls fails.
pub file_open-Held :
    (n : ℕ) (l : Handles) (memory : Bool) (sock : Attempt ℕ)
    (connected option bound listening : Attempt Unit) (wpath : Attempt Text)
    (create : Text → CreateFlags → Attempt ℕ) (flags : ℕ)
    → Held n l (socket_connect memory sock connected l)
      × Held n l (socket_bind memory sock option bound listening l)
      × Held n l (file_open memory wpath create flags l)
file_open-Held n l memory sock connected option bound listening wpath create flags = (
  connected-Held n l memory sock connected,
  bound-Held n l memory sock option bound listening,
  opened-Held n l memory wpath create flags,
)

-- Where there is memory, and no socket has number 0, `yo_socket_accept` of the Windows port returns YO_OK whatever
-- accept answers, and the block that it allocates is not what it stores and is not freed.
pub socket_accept_ok :
    (client : Attempt ℕ) (l : Handles)
    → client ≢ given 0
    → ((socket_accept true client l).code ≡ some Code.ok)
      × ((socket_accept true client l).left.blocks ≡ l.blocks + 1)
unfolding socket_accept
socket_accept_ok (denied e) l h = (refl, refl)
socket_accept_ok (given s) l h = elim (Bool-cases (s == 0)) [
  | inl e ↦ absurd (h (ap (λ k. given k) (==→eq s 0 e)))
  | inr e ↦ (rw e refl, rw e refl)
]
