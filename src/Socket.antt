-- ===== src/Socket.antt =====
-- The socket functions of src/unix/impl.c, with the descriptors and the blocks of memory that they hold. What
-- malloc and the system's calls answer are arguments, each for the call that is made.
pub mod Held
mod Tests
use libyaooi.Prelude.{
  ℕ, ◌+◌, ◌-◌, Bool, true, false, Option, none, some, List, [], ◌∷◌, ◌==◌, if◌then◌else◌,
}
use libyaooi.Errno.{Code}
use libyaooi.Errno.Os.{Errno}
use libyaooi.Errno.Unix.{conv_errno}

-- The open descriptors, the number of blocks that are not freed, and errno.
pub record Process : Type 0 where
  pub fds : List ℕ
  pub blocks : ℕ
  pub errno : Errno

-- What a call answers: a value, or a failure with the errno that it sets.
pub data Answer (A : Type 0) : Type 0 where
  done : A → Answer A
  fails : Errno → Answer A

-- A code, the descriptor of the handle that is stored through `pres`, and the process.
pub record Reply : Type 0 where
  pub code : Option Code
  pub handle : Option ℕ
  pub process : Process

abbrev pub malloc : Process → Process
malloc p = record p { blocks = p.blocks + 1 }

abbrev pub free : Process → Process
free p = record p { blocks = p.blocks - 1 }

abbrev pub set_errno : Errno → Process → Process
set_errno e p = record p { errno = e }

abbrev pub opened : ℕ → Process → Process
opened s p = record p { fds = s ∷ p.fds }

abbrev pub without : ℕ → List ℕ → List ℕ
without n [] = []
without n (x ∷ xs) = if n == x then xs else x ∷ without n xs

-- `close` of a descriptor, and of -1.
abbrev pub close : Option ℕ → Process → Process
close none p = set_errno Errno.ebadf p
close (some s) p = record p { fds = without s p.fds }

abbrev pub failure : Process → Reply
failure p = record { code = conv_errno p.errno; handle = none; process = p }

abbrev pub success : ℕ → Process → Reply
success s p = record { code = some Code.ok; handle = some s; process = p }

abbrev pub no_memory : Process → Reply
no_memory p = record { code = some Code.enomem; handle = none; process = p }

unfoldable pub socket_connect :
    (memory : Bool) → (sock : Answer ℕ) → (connected : Answer Unit) → Process → Reply
socket_connect false sock connected p = no_memory p
socket_connect true (fails e) connected p = failure (free (close none (set_errno e (malloc p))))
socket_connect true (done s) (fails e) p = failure (free (set_errno e (opened s (malloc p))))
socket_connect true (done s) (done _) p = success s (opened s (malloc p))

-- The three calls behind the socket, in their order: setsockopt, bind, listen.
abbrev pub all_done : Answer Unit → Answer Unit → Answer Unit → Answer Unit
all_done (fails e) b c = fails e
all_done (done _) (fails e) c = fails e
all_done (done _) (done _) c = c

abbrev pub bind_rest : Answer Unit → ℕ → Process → Reply
bind_rest (fails e) s p = failure (free (close (some s) (set_errno e p)))
bind_rest (done _) s p = success s p

unfoldable pub socket_bind :
    (memory : Bool) → (sock : Answer ℕ) → (option bound listening : Answer Unit) → Process → Reply
socket_bind false sock option bound listening p = no_memory p
socket_bind true (fails e) option bound listening p = failure (free (set_errno e (malloc p)))
socket_bind true (done s) option bound listening p =
    bind_rest (all_done option bound listening) s (opened s (malloc p))

unfoldable pub socket_accept : (isfd memory : Bool) → (accepted : Answer ℕ) → Process → Reply
socket_accept false memory accepted p = record {
  code = some Code.ebadfd;
  handle = none;
  process = p;
}
socket_accept true false accepted p = no_memory p
socket_accept true true (fails e) p = failure (free (set_errno e (malloc p)))
socket_accept true true (done s) p = success s (opened s (malloc p))
