-- ===== src/Unix/Tests.antt =====
-- A file whose close is interrupted, raw modes within raw modes of one terminal, and a link of two bytes.
use libyaooi.Prelude.{
  ℕ, ◌≤◌, ◌<◌, ◌≡◌, refl, ◌⊎◌, true, false, Option, some, List, [], ◌∷◌, length, arith,
}
use libyaooi.Errno.Os.{Errno}
use libyaooi.Socket.{Process, done, fails}
use libyaooi.Unix.Handles.{Closing, refused}
use libyaooi.Unix.Handles.Released.{released, again, OpensAndCloses, fd_close-file_open}
use libyaooi.Unix.Tty.{Termios, Ttys}
use libyaooi.Unix.Tty.Restored.{Call, Restored, nested, nested-Restored}
use libyaooi.Unix.Links.{overrun, file_readlink}
use libyaooi.Unix.Links.Bounds.{Stored, file_readlink-Stored}

abbrev process : Process
process = record { fds = 0 ∷ 1 ∷ []; blocks = 7; errno = Errno.eio }

abbrev cooked : Termios
cooked = record {
  brkint = true;
  icrnl = true;
  inpck = false;
  istrip = false;
  ixon = true;
  opost = true;
  cs8 = true;
  echo = true;
  icanon = true;
  iexten = true;
  isig = true;
  vmin = 1;
  vtime = 0;
  rest = 0;
}

abbrev ttys : Ttys
ttys = record { mode = λ g. cooked; blocks = 3 }

abbrev twice : List Call
twice =
    record { isfd = true; memory = true; get = done tt; set = done tt; fd = 0 }
    ∷ record { isfd = true; memory = true; get = done tt; set = fails Errno.eio; fd = 1 }
    ∷ record { isfd = true; memory = true; get = done tt; set = done tt; fd = 0 }
    ∷ []

nested-Restored_example : Restored ttys (nested twice ttys)
nested-Restored_example = nested-Restored twice ttys

abbrev memory_of : ℕ → Option (List ℕ)
memory_of n = some (9 ∷ 9 ∷ 9 ∷ [])

abbrev target : List ℕ
target = 46 ∷ 46 ∷ []

file_readlink-Stored_example :
    ((length target ≤ 2) × Stored target (file_readlink (done 2) memory_of (done target)))
    ⊎ ((2 < length target) × (file_readlink (done 2) memory_of (done target) ≡ overrun))
file_readlink-Stored_example =
    file_readlink-Stored 2 memory_of (9 ∷ 9 ∷ 9 ∷ []) target refl (omega arith)
      (ground arith, (ground arith, tt))

-- A close that is interrupted, and one that has released the descriptor although it was.
abbrev interrupted : List Closing
interrupted = refused false Errno.eintr ∷ refused true Errno.eintr ∷ refused false Errno.ebadf ∷ []

fd_close-file_open_example : OpensAndCloses interrupted process (done 5)
fd_close-file_open_example = fd_close-file_open interrupted process (done 5) (again _ (released []))
