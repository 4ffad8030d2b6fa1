-- ===== src/Ansi/Handles.antt =====
-- The handles of src/ansi/impl.c: `yo_fd_new`, `yo_file_open`, `yo_fd_close`, and the functions that make what they refer to. What malloc,
-- fopen and fclose answer are arguments.
pub mod Released
use libyaooi.Prelude.{ℕ, ◌+◌, ◌-◌, Bool, true, false, Option, none, some, if◌then◌else◌}
use libyaooi.Errno.{Code}
use libyaooi.Errno.Os.{Errno}
use libyaooi.Ansi.Open.{Mode, Opened, at_path, stream, open_mode}
use libyaooi.Paths.{Text}

-- How many streams are open, and how many blocks are allocated.
pub record Files : Type 0 where
  pub streams : ℕ
  pub blocks : ℕ

-- `struct yo_fd`
pub data Resource : Type 0 where
  file : ℕ → Resource
  at : Text → Resource

pub record Handle : Type 0 where
  pub owned : Bool
  pub resource : Resource

abbrev pub mkfd : ℕ → Handle
mkfd f = record { owned = true; resource = file f }

-- The copy of the path is in a block.
abbrev pub mkat : (memory : Bool) → Text → Files → Option Handle × Files
mkat false path q = (none, q)
mkat true path q =
    (some (record { owned = true; resource = at path }), record q { blocks = q.blocks + 1 })

abbrev pub malloc : Files → Files
malloc q = record q { blocks = q.blocks + 1 }

unfoldable pub fd_new :
    (memory : Bool) → (fd : ℕ) → (owned : Bool) → Files → Code × Option Handle × Files
fd_new false fd owned q = (Code.enomem, none, q)
fd_new true fd owned q = (Code.ok, some (record (mkfd fd) { owned = owned }), malloc q)

-- Behind the switch, and behind fopen.
abbrev pub on_at : Option Handle × Files → Code × Option Handle × Files
on_at (none, q) = (Code.enomem, none, q)
on_at (some h, q) = (Code.ok, some h, q)

abbrev pub on_fopen : Option ℕ → Files → Code × Option Handle × Files
on_fopen none q = (Code.enoent, none, q)
on_fopen (some f) q = (Code.ok, some (mkfd f), record q { streams = q.streams + 1 })

abbrev pub on_mode :
    Option Opened
    → (at_memory : Bool) → (fopen : Text → Mode → Option ℕ) → Text
    → Files
    → Code × Option Handle × Files
on_mode none at_memory fopen path q = (Code.enotsup, none, q)
on_mode (some at_path) at_memory fopen path q = on_at (mkat at_memory path q)
on_mode (some (stream m)) at_memory fopen path q = on_fopen (fopen path m) q

unfoldable pub file_open :
    (memory at_memory : Bool)
    → (fopen : Text → Mode → Option ℕ) → Text
    → (flags : ℕ) → Files
    → Code × Option Handle × Files
file_open false at_memory fopen path flags q = (Code.enomem, none, q)
file_open true at_memory fopen path flags q =
    on_mode (open_mode flags) at_memory fopen path (malloc q)

abbrev pub is_eintr : Errno → Bool
is_eintr Errno.eintr = true
is_eintr _ = false

-- What a close leads to: fclose ends its stream whatever it answers, so that to call it again is not defined.
pub data Closed : Type 0 where
  ended : Files → Closed
  undefined : Closed

abbrev pub free : Files → Files
free q = record q { blocks = q.blocks - 1 }

abbrev pub on_fclose : Option Errno → Files → Closed
on_fclose none q = ended (free (record q { streams = q.streams - 1 }))
on_fclose (some e) q =
    if is_eintr e then undefined else ended (free (record q { streams = q.streams - 1 }))

abbrev pub close_resource : Option Errno → Resource → Files → Closed
close_resource fclose (at path) q = ended (free (free q))
close_resource fclose (file f) q = on_fclose fclose q

unfoldable pub fd_close : (fclose : Option Errno) → Handle → Files → Closed
fd_close fclose h q = if h.owned then close_resource fclose h.resource q else ended (free q)
