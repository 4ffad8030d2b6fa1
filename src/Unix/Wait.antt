-- ===== src/Unix/Wait.antt =====
-- The end of a process, `yo_proc_wait` and `yo_proc_disown` of src/unix/impl.c. The answer of waitpid is an argument: an
-- exit with its code, an end by a signal, or another status that the macros of sys/wait.h tell from both.
use libyaooi.Prelude.{ℕ, ◌-◌, Option, none, some}
use libyaooi.Errno.{Code}
use libyaooi.Errno.Unix.{conv_errno}
use libyaooi.Socket.{Answer, done, fails}

pub data Status : Type 0 where
  exited : ℕ → Status
  signaled : ℕ → Status
  neither : Status

-- What `psig` and `pcode` refer to, none for -1, and the blocks that are allocated.
pub record Waiter : Type 0 where
  pub sig : Option ℕ
  pub code : Option ℕ
  pub blocks : ℕ

abbrev pub on_exit : Status → Waiter → Waiter
on_exit (exited n) w = record w { code = some n }
on_exit _ w = w

abbrev pub on_signal : Status → Waiter → Waiter
on_signal (signaled n) w = record w { code = some n }
on_signal _ w = w

unfoldable pub proc_wait : Answer Status → Waiter → Option Code × Waiter
proc_wait (fails e) w = (conv_errno e, w)
proc_wait (done s) w =
    let q = on_signal s (on_exit s (record w { code = none; sig = none })) in
    (some Code.ok, record q { blocks = q.blocks - 1 })

unfoldable pub proc_disown : Waiter → Option Code × Waiter
proc_disown w = (some Code.ok, record w { blocks = w.blocks - 1 })
