-- ===== src/Unix/Handles.antt =====
-- `yo_fd_new`, `yo_file_open` and `yo_fd_close` of src/unix/impl.c, as Linux is built, with the descriptors and the
-- memory that they hold.
pub mod Released
use libyaooi.Prelude.{ℕ, ◌+◌, Bool, true, false, Option, none, some, List, [], ◌∷◌, if◌then◌else◌}
use libyaooi.Errno.{Code}
use libyaooi.Errno.Os.{Errno}
use libyaooi.Socket.{
  Process, Answer, done, fails, Reply, malloc, free, set_errno, opened, close, failure, success,
  no_memory,
}

-- The fields of `struct yo_fd` that count here; `yoi_unix_mkfd` makes an owned one.
pub record Handle : Type 0 where
  pub fd : ℕ
  pub owned : Bool

-- `yo_fd_new`, which opens nothing.
unfoldable pub fd_new :
    (memory : Bool) → ℕ → (owned : Bool) → Process → Option Code × Option Handle × Process
fd_new false fd owned p = (some Code.enomem, none, p)
fd_new true fd owned p = (some Code.ok, some (record { fd = fd; owned = owned }), malloc p)

-- `yo_file_open`, with what open answers.
unfoldable pub file_open : (memory : Bool) → Answer ℕ → Process → Reply
file_open false r p = no_memory p
file_open true (fails e) p = failure (set_errno e (malloc p))
file_open true (done fd) p = success fd (opened fd (malloc p))

abbrev pub is_eintr : Errno → Bool
is_eintr Errno.eintr = true
is_eintr _ = false

-- What a call of close answers: where it fails, it may have released the descriptor, as Linux does when a signal interrupts it.
pub data Closing : Type 0 where
  closed : Closing
  refused : (released : Bool) → Errno → Closing

abbrev pub after : Closing → ℕ → Process → Process
after closed fd p = close (some fd) p
after (refused true e) fd p = set_errno e (close (some fd) p)
after (refused false e) fd p = set_errno e p

-- The loop of `yo_fd_close`, over what the calls of close answer.
unfoldable pub close_loop : List Closing → ℕ → Process → Process
close_loop [] fd p = p
close_loop (closed ∷ answers) fd p = after closed fd p
close_loop (refused r e ∷ answers) fd p =
    let rest = close_loop answers fd (after (refused r e) fd p) in
    if is_eintr e then rest else after (refused r e) fd p

-- `yo_fd_close`, behind `yoi_unix_onclose`.
unfoldable pub fd_close : List Closing → Handle → Process → Process
fd_close answers h p = if h.owned then free (close_loop answers h.fd p) else free p
