-- ===== src/Socket/Held.antt =====
-- What the socket functions hold when they return.
use libyaooi.Prelude.{ℕ, ◌≡◌, ◌+◌, refl, Bool, true, false, none, some, ◌∷◌, arith, ==_self}
use libyaooi.Errno.{Code}
use libyaooi.Errno.Os.{Errno}
use libyaooi.Errno.Unix.{conv_errno}
use libyaooi.Socket.{
  Process, Answer, done, fails, Reply, all_done, bind_rest, socket_connect, socket_bind,
  socket_accept,
}

-- There is a handle, and it holds one more descriptor and one more block; or there is none, and nothing more is
-- held.
pub data Held (p : Process) (r : Reply) : Type 0 where
  kept :
      (s : ℕ)
      → r.handle ≡ some s
      → r.code ≡ some Code.ok
      → r.process.fds ≡ s ∷ p.fds
      → r.process.blocks ≡ p.blocks + 1
      → Held p r
  released : r.handle ≡ none → r.process.fds ≡ p.fds → r.process.blocks ≡ p.blocks → Held p r

bind_rest-Held :
    (a : Answer Unit) (s : ℕ) (p q : Process)
    → q.fds ≡ s ∷ p.fds
    → q.blocks ≡ p.blocks + 1
    → Held p (bind_rest a s q)
bind_rest-Held (fails e) s p q o b = released refl (rw (o, ==_self s) refl) (rw b (omega arith))
bind_rest-Held (done _) s p q o b = kept s refl refl o b

-- `yo_socket_bind` and `yo_socket_accept` return YO_OK with a handle, one more descriptor and one more block of memory, or
-- give no handle and hold nothing more, whichever of their calls fails.
pub socket_bind-Held :
    (isfd memory : Bool) (sock : Answer ℕ) (option bound listening : Answer Unit) (p : Process)
    → Held p (socket_bind memory sock option bound listening p)
      × Held p (socket_accept isfd memory sock p)
unfolding socket_bind socket_accept
socket_bind-Held isfd memory sock option bound listening p =
    (binds memory sock, accepts isfd memory sock)
  where
    binds : (m : Bool) (a : Answer ℕ) → Held p (socket_bind m a option bound listening p)
    binds false a = released refl refl refl
    binds true (fails e) = released refl refl (omega arith)
    binds true (done s) = bind_rest-Held (all_done option bound listening) s p _ refl refl

    accepts : (f m : Bool) (a : Answer ℕ) → Held p (socket_accept f m a p)
    accepts false m a = released refl refl refl
    accepts true false a = released refl refl refl
    accepts true true (fails e) = released refl refl (omega arith)
    accepts true true (done s) = kept s refl refl refl refl

-- What a call of `yo_socket_connect` leaves, by what the system answered for the socket.
abbrev pub Connected : Answer ℕ → Reply → Process → Type 0
Connected (fails e) r p =
    (r.code ≡ conv_errno Errno.ebadf) × (r.handle ≡ none) × (r.process.fds ≡ p.fds)
Connected (done s) r p = r.process.fds ≡ s ∷ p.fds

-- Where there is memory for the handle, `yo_socket_connect` holds one more descriptor exactly where the system gave a socket, also where the connection fails and no
-- handle is given; and where the system gives no socket it returns the code of EBADF, whatever the failure was.
pub socket_connect_lem :
    (sock : Answer ℕ) (connected : Answer Unit) (p : Process)
    → Connected sock (socket_connect true sock connected p) p
unfolding socket_connect
socket_connect_lem (fails e) connected p = (refl, refl, refl)
socket_connect_lem (done s) (fails e) p = refl
socket_connect_lem (done s) (done _) p = refl
