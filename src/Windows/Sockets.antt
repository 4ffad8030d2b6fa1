-- ===== src/Windows/Sockets.antt =====
-- The socket functions of src/win/impl.c, with the sockets and the blocks of memory that they hold. What malloc and
-- the calls of the system answer are arguments.

pub mod Held
mod Tests
use libyaooi.Prelude.{ℕ, Bool, true, false, Option, none, some, ◌==◌, if◌then◌else◌}
use libyaooi.Errno.{Code}
use libyaooi.Windows.Errno.{conv_errno}
use libyaooi.Windows.Errors.{WinError}
use libyaooi.Windows.Spawn.{
  Attempt, given, denied, Handles, set_error, opening, closing, malloc, free,
}
use libyaooi.Windows.Files.{Reply, no_block, failed, stored}

-- `closesocket`
abbrev pub closesocket : ℕ → Handles → Handles
closesocket s l = closing (some s) l

-- `yo_socket_connect`
abbrev pub on_connect : Attempt Unit → ℕ → Handles → Reply
on_connect (denied e) s l = failed (free (closesocket s (set_error e l)))
on_connect (given _) s l = stored s l

unfoldable pub socket_connect :
    (memory : Bool) → (sock : Attempt ℕ) → (connected : Attempt Unit) → Handles → Reply
socket_connect false sock connected l = no_block l
socket_connect true (denied e) connected l = failed (free (set_error e (malloc l)))
socket_connect true (given s) connected l = on_connect connected s (opening s (malloc l))

-- setsockopt, bind and listen, of which the first failure ends the rest.
abbrev pub all_given : Attempt Unit → Attempt Unit → Attempt Unit → Attempt Unit
all_given (denied e) b c = denied e
all_given (given _) (denied e) c = denied e
all_given (given _) (given _) c = c

abbrev pub on_listen : Attempt Unit → ℕ → Handles → Reply
on_listen (denied e) s l = failed (closesocket s (free (set_error e l)))
on_listen (given _) s l = stored s l

-- `yo_socket_bind`
unfoldable pub socket_bind :
    (memory : Bool) → (sock : Attempt ℕ) → (option bound listening : Attempt Unit) → Handles → Reply
socket_bind false sock option bound listening l = no_block l
socket_bind true (denied e) option bound listening l = failed (free (set_error e (malloc l)))
socket_bind true (given s) option bound listening l =
    on_listen (all_given option bound listening) s (opening s (malloc l))

-- What `yo_socket_accept` stores: the number of the socket, also where it is INVALID_SOCKET, and not the handle
-- that it makes.
pub record Accepted : Type 0 where
  pub code : Option Code
  pub pres : Option ℕ
  pub left : Handles

-- INVALID_SOCKET, of 64 bits.
abbrev pub invalid_socket : ℕ
invalid_socket = 18446744073709551615

-- `yo_socket_accept`, with what accept returns, and the error that it leaves.
abbrev pub on_accept : (client : ℕ) → WinError → Handles → Accepted
on_accept client e l =
    if client == 0
    then record { code = conv_errno e; pres = none; left = free (set_error e l) }
    else record { code = some Code.ok; pres = some client; left = l }

abbrev pub client_of : Attempt ℕ → ℕ
client_of (denied e) = invalid_socket
client_of (given s) = s

abbrev pub error_of : Attempt ℕ → WinError → WinError
error_of (denied e) old = e
error_of (given s) old = old

abbrev pub accepted : Attempt ℕ → Handles → Handles
accepted (denied e) l = set_error e l
accepted (given s) l = opening s l

unfoldable pub socket_accept : (memory : Bool) → Attempt ℕ → Handles → Accepted
socket_accept false client l = record { code = some Code.enomem; pres = none; left = l }
socket_accept true client l =
    on_accept (client_of client) (error_of client l.error) (accepted client (malloc l))
