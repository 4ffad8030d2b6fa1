-- ===== src/Spawn.antt =====
-- `yo_proc_spawn` and `_yoi_unix_mkstd` of src/unix/impl.c: the descriptors and blocks of memory that they
-- take and give back, on every path. What malloc, fork and the system's calls answer are arguments.
pub mod Child
pub mod Held
pub mod Reports
mod Tests
use libyaooi.Prelude.{
  ℕ, ◌+◌, ◌-◌, Bool, true, false, Option, none, some, List, [], ◌∷◌, if◌then◌else◌,
}
use libyaooi.Errno.{Code}
use libyaooi.Errno.Os.{Errno}
use libyaooi.Errno.Unix.{conv_errno}
use libyaooi.Socket.{Answer, done, fails, all_done}

-- What a call of `yo_proc_spawn` has done: the descriptors that it opened and closed, the blocks that it
-- allocated and freed, the children that it started and waited for, and errno.
pub record Ledger : Type 0 where
  pub opened : List ℕ
  pub closed : List ℕ
  pub blocks : ℕ
  pub children : ℕ
  pub errno : Errno

-- Two ends of a pipe. An end is none where its variable is -1.
pub record Ends : Type 0 where
  pub parent : Option ℕ
  pub child : Option ℕ

abbrev pub no_ends : Ends
no_ends = record { parent = none; child = none }

-- The local variables of `yo_proc_spawn`; the parent's end of the status pipe is `status_pipe[0]`.
pub record Frame : Type 0 where
  pub status : Ends
  pub inp : Ends
  pub out : Ends
  pub err : Ends

-- What `malloc` and `pipe` answer for one of the standard streams, where the caller asks for it; the pipe's
-- answer is `pipe_fd[0]` and `pipe_fd[1]`.
pub record Stream : Type 0 where
  pub memory : Bool
  pub pipe : Answer (ℕ × ℕ)

-- What the parent reads from the status pipe: a failure, the four bytes of an errno, nothing, or another
-- number of bytes.
pub data Status : Type 0 where
  read_fails : Errno → Status
  code : Errno → Status
  closed_pipe : Status
  partial : Status

pub record Answers : Type 0 where
  pub pipe : Answer (ℕ × ℕ)
  pub cloexec_read : Answer Unit
  pub cloexec_write : Answer Unit
  pub nonblock : Answer Unit
  pub pin : Option Stream
  pub pout : Option Stream
  pub perr : Option Stream
  pub fork : Answer ℕ
  pub status : Status
  pub waited : Answer Unit

-- The result, with the descriptors of the handles that are stored through `pin`, `pout` and `perr`.
pub record Outcome : Type 0 where
  pub result : Option Code
  pub pid : Option ℕ
  pub handles : List (Option ℕ)
  pub ledger : Ledger

abbrev pub set_errno : Errno → Ledger → Ledger
set_errno e l = record l { errno = e }

abbrev pub opens : ℕ → Ledger → Ledger
opens fd l = record l { opened = fd ∷ l.opened }

-- `if (fd != -1) close(fd);`
abbrev pub close : Option ℕ → Ledger → Ledger
close none l = l
close (some fd) l = record l { closed = fd ∷ l.closed }

abbrev pub close_ends : Ends → Ledger → Ledger
close_ends e l = close e.child (close e.parent l)

abbrev pub malloc : Ledger → Ledger
malloc l = record l { blocks = l.blocks + 1 }

abbrev pub free : Ledger → Ledger
free l = record l { blocks = l.blocks - 1 }

-- The two ends, by who reads.
abbrev pub ends : (input : Bool) → ℕ × ℕ → Ends
ends true (r, w) = record { parent = some w; child = some r }
ends false (r, w) = record { parent = some r; child = some w }

-- `_yoi_unix_mkstd`; a malloc that fails sets ENOMEM.
unfoldable pub mkstd : (input memory : Bool) → Answer (ℕ × ℕ) → Ledger → Option Ends × Ledger
mkstd input false pipe l = (none, set_errno Errno.enomem l)
mkstd input true (fails e) l = (none, free (set_errno e (malloc l)))
mkstd input true (done p) l = (some (ends input p), opens p.0 (opens p.1 (malloc l)))

-- Its call, where the caller asks for the stream.
abbrev pub make : (input : Bool) → Option Stream → Ledger → Option Ends × Ledger
make input none l = (some no_ends, l)
make input (some s) l = mkstd input s.memory s.pipe l

-- The labels at the end, each of which falls through to the next.
abbrev pub err_pipe_status : Ledger → Outcome
err_pipe_status l = record { result = conv_errno l.errno; pid = none; handles = []; ledger = l }

unfoldable pub err_fnctl_status : Frame → Ledger → Outcome
err_fnctl_status f l = err_pipe_status (close_ends f.status l)

unfoldable pub err_mkstd_out : Frame → Ledger → Outcome
err_mkstd_out f l = err_fnctl_status f (close_ends f.inp l)

unfoldable pub err_mkstd_err : Frame → Ledger → Outcome
err_mkstd_err f l = err_mkstd_out f (close_ends f.out l)

unfoldable pub err_fork : Frame → Ledger → Outcome
err_fork f l = err_mkstd_err f (close_ends f.err l)

-- `waitpid`, which takes the child where it succeeds.
abbrev pub on_wait : Answer Unit → Ledger → Ledger
on_wait (fails e) l = set_errno e l
on_wait (done _) l = record l { children = l.children - 1 }

unfoldable pub err_read_status : Answers → Frame → Ledger → Outcome
err_read_status a f l = err_fork f (on_wait a.waited l)

-- A handle is stored where the parent has an end.
abbrev pub finished : ℕ → Frame → Ledger → Outcome
finished pid f l = record {
  result = some Code.ok;
  pid = some pid;
  handles = f.inp.parent ∷ f.out.parent ∷ f.err.parent ∷ [];
  ledger = l;
}

abbrev pub parent_only : Ends → Ends
parent_only e = record e { child = none }

-- The variables behind the closing of the child's ends and of the status pipe.
abbrev pub parent_frame : Frame → Frame
parent_frame f = record {
  status = no_ends;
  inp = parent_only f.inp;
  out = parent_only f.out;
  err = parent_only f.err;
}

abbrev pub close_child_ends : Frame → Ledger → Ledger
close_child_ends f l =
    close f.status.parent
      (close f.status.child (close f.err.child (close f.out.child (close f.inp.child l))))

-- The parent behind its read of the status pipe.
unfoldable pub on_status : Status → Answers → ℕ → Frame → Ledger → Outcome
on_status (read_fails e) a pid f l = err_read_status a f (set_errno e l)
on_status (code e) a pid f l = err_read_status a f (set_errno e l)
on_status closed_pipe a pid f l = finished pid f l
on_status partial a pid f l = err_read_status a f (set_errno Errno.epipe l)

-- The parent behind `fork`.
unfoldable pub on_fork : Answer ℕ → Answers → Frame → Ledger → Outcome
on_fork (fails e) a f l = err_fork f (set_errno e l)
on_fork (done pid) a f l =
    on_status a.status a pid (parent_frame f)
      (close_child_ends f (record l { children = l.children + 1 }))

unfoldable pub making_err : Answers → Frame → Ledger → Outcome
making_err a f l =
    let made = make false a.perr l in
    elim made.0 [
      | none ↦ err_mkstd_err f made.1
      | some e ↦ on_fork a.fork a (record f { err = e }) made.1
    ]

unfoldable pub making_out : Answers → Frame → Ledger → Outcome
making_out a f l =
    let made = make false a.pout l in
    elim made.0 [
      | none ↦ err_mkstd_out f made.1
      | some e ↦ making_err a (record f { out = e }) made.1
    ]

unfoldable pub making_in : Answers → Frame → Ledger → Outcome
making_in a f l =
    let made = make true a.pin l in
    elim made.0 [
      | none ↦ err_fnctl_status f made.1
      | some e ↦ making_out a (record f { inp = e }) made.1
    ]

-- The three calls of fcntl, of which the first failure ends the rest.
abbrev pub fcntls : Answers → Answer Unit
fcntls a = all_done a.cloexec_read a.cloexec_write a.nonblock

abbrev pub status_frame : ℕ × ℕ → Frame
status_frame s = record {
  status = record { parent = some s.0; child = some s.1 };
  inp = no_ends;
  out = no_ends;
  err = no_ends;
}

unfoldable pub on_fcntls : Answer Unit → Answers → ℕ × ℕ → Ledger → Outcome
on_fcntls (fails e) a s l = err_fnctl_status (status_frame s) (set_errno e l)
on_fcntls (done _) a s l = making_in a (status_frame s) l

unfoldable pub on_pipe : Answer (ℕ × ℕ) → Answers → Ledger → Outcome
on_pipe (fails e) a l = err_pipe_status (set_errno e l)
on_pipe (done s) a l = on_fcntls (fcntls a) a s (opens s.0 (opens s.1 l))

-- `yo_proc_spawn`, with memory for the handle of the process: the source does not test for it.
unfoldable pub proc_spawn : Answers → Ledger → Outcome
proc_spawn a l = on_pipe a.pipe a (malloc l)
