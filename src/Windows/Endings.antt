-- ===== src/Windows/Endings.antt =====
-- What is ended and linked in src/win/impl.c: `yo_fd_new` and `yo_fd_close`, `yo_proc_wait` and `yo_proc_disown`, and the links of
-- files. What the functions of the system answer is an argument.
use libyaooi.Prelude.{ℕ, Bool, true, false, Option, none, some, if◌then◌else◌}
use libyaooi.Prelude.Int.{ℤ, pos, negsuc}
use libyaooi.Errno.{Code}
use libyaooi.Waits.{int_of}
use libyaooi.Windows.Cmdline.{Text}
use libyaooi.Windows.Errno.{conv_errno}
use libyaooi.Windows.Errors.{WinError}
use libyaooi.Windows.Spawn.{Attempt, given, denied, Handles, closing, malloc, free}

-- `struct yo_fd`
pub data Kind : Type 0 where
  hnd sock : Kind

pub record Fd : Type 0 where
  pub owned : Bool
  pub kind : Kind
  pub number : ℕ

abbrev pub mkhnd : ℕ → Fd
mkhnd n = record { owned = true; kind = hnd; number = n }

abbrev pub mksock : ℕ → Fd
mksock n = record { owned = true; kind = sock; number = n }

-- `yo_fd_new`
unfoldable pub fd_new :
    (memory : Bool) → (fd : ℕ) → (owned : Bool) → Handles → Option Code × Option Fd × Handles
fd_new false fd owned l = (some Code.enomem, none, l)
fd_new true fd owned l = (some Code.ok, some (record (mkhnd fd) { owned = owned }), malloc l)

-- The handles and the sockets of the process.
pub record Held : Type 0 where
  pub handles : Handles
  pub sockets : Handles

abbrev pub close_kind : Kind → ℕ → Held → Held
close_kind hnd n h = record h { handles = closing (some n) h.handles }
close_kind sock n h = record h { sockets = closing (some n) h.sockets }

-- `yo_fd_close`; the blocks are those of `handles`.
unfoldable pub fd_close : Fd → Held → Held
fd_close fd h =
    let q = if fd.owned then close_kind fd.kind fd.number h else h in
    record q { handles = free q.handles }

-- WaitForSingleObject.
pub data Wait : Type 0 where
  abandoned : Wait
  object_0 : Wait
  timeout : Wait
  failed : WinError → Wait

-- The code, what is stored through `psig` and `pcode`, and the handles.
pub record Waited : Type 0 where
  pub code : Option Code
  pub sig : Option ℤ
  pub exit : Option ℤ
  pub left : Handles

abbrev pub unended : Option Code → Handles → Waited
unended c l = record { code = c; sig = none; exit = none; left = l }

abbrev pub on_exit_code : Attempt ℕ → ℕ → Handles → Waited
on_exit_code (denied e) proc l = unended (conv_errno e) l
on_exit_code (given n) proc l = record {
  code = some Code.ok;
  sig = some (negsuc 0);
  exit = some (int_of (pos n));
  left = closing (some proc) l;
}

unfoldable pub proc_wait : Wait → (exit_code : Attempt ℕ) → (proc : ℕ) → Handles → Waited
proc_wait abandoned exit_code proc l = unended (some Code.ebusy) l
proc_wait timeout exit_code proc l = unended (some Code.etimeout) l
proc_wait (failed e) exit_code proc l = unended (conv_errno e) l
proc_wait object_0 exit_code proc l = on_exit_code exit_code proc l

unfoldable pub proc_disown : (proc : ℕ) → Handles → Option Code × Handles
proc_disown proc l = (some Code.ok, free (closing (some proc) l))

-- CreateSymbolicLinkW and CreateHardLinkW, with the text of the new file first, and the other; NULL where its conversion
-- has failed.
abbrev pub on_link : Attempt Unit → Handles → Option Code × Handles
on_link (denied e) l = (conv_errno e, l)
on_link (given _) l = (some Code.ok, l)

-- `yo_file_symlink` and `yo_file_hardlink`
abbrev pub converted : Attempt Text → Option Text
converted (denied e) = none
converted (given t) = some t

-- The blocks behind the conversion of the target, and behind free of both.
abbrev pub freed : Attempt Text → Handles → Handles
freed (denied e) l = free (malloc l)
freed (given t) l = free (free (malloc (malloc l)))

unfoldable pub link :
    (create : Option Text → Text → Attempt Unit)
    → (wpath wtarget : Attempt Text) → Handles
    → Option Code × Handles
link create (denied e) wtarget l = (conv_errno e, l)
link create (given wpath) wtarget l = on_link (create (converted wtarget) wpath) (freed wtarget l)
