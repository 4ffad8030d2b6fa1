-- ===== src/Spawn/Child.antt =====
-- The child of `yo_proc_spawn`, between `fork` and the program that it becomes.
use libyaooi.Prelude.{Bool, Option, none, some, List, [], ◌∷◌, if◌then◌else◌}
use libyaooi.Errno.Os.{Errno}
use libyaooi.Socket.{Answer, done, fails}
use libyaooi.Spawn.{Status, code, closed_pipe}

-- What the calls of the child answer, a failure where they return a negative number, which pthread_sigmask never does; `exec` has a value only where the program is started.
pub record ChildAnswers : Type 0 where
  pub has_in : Bool
  pub has_out : Bool
  pub has_err : Bool
  pub has_cwd : Bool
  pub dup_in : Answer Unit
  pub dup_out : Answer Unit
  pub dup_err : Answer Unit
  pub chdir : Answer Unit
  pub setmask : Answer Unit
  pub exec : Answer Unit

-- The calls that the child makes, in their order.
abbrev pub calls : ChildAnswers → List (Answer Unit)
calls c =
    (if c.has_in then c.dup_in else done tt)
    ∷ (if c.has_out then c.dup_out else done tt)
    ∷ (if c.has_err then c.dup_err else done tt)
    ∷ (if c.has_cwd then c.chdir else done tt)
    ∷ c.setmask
    ∷ c.exec
    ∷ []

-- The errno at the label err_child, where a call fails.
unfoldable pub first_failure : List (Answer Unit) → Option Errno
first_failure [] = none
first_failure (fails e ∷ rest) = some e
first_failure (done _ ∷ rest) = first_failure rest

-- What the parent reads: the number that the child writes, or the end of a pipe that exec has closed.
abbrev pub reported : Option Errno → Status
reported (some e) = code e
reported none = closed_pipe

abbrev pub child : ChildAnswers → Status
child c = reported (first_failure (calls c))
