-- ===== src/Unix/Handles/Released.antt =====
-- What a handle holds is given back when it is closed.
use libyaooi.Prelude.{ℕ, ◌+◌, ◌≡◌, refl, ◌∙◌, true, false, none, some, List, ◌∷◌, arith, ==_self}
use libyaooi.Errno.Os.{Errno}
use libyaooi.Errno.Unix.{conv_errno}
use libyaooi.Socket.{Process, Answer, done, fails, without, set_errno}
use libyaooi.Unix.Handles.{file_open, Closing, closed, refused, close_loop, fd_close}

-- The calls of close that a signal interrupts, and the end of them: one that succeeds, or one that has released the
-- descriptor although it was interrupted, behind which there is none to close.
pub data Closes : List Closing → Type 0 where
  once : (rest : List Closing) → Closes (closed ∷ rest)
  released :
      (rest : List Closing) → Closes (refused true Errno.eintr ∷ refused false Errno.ebadf ∷ rest)
  again : (rest : List Closing) → Closes rest → Closes (refused false Errno.eintr ∷ rest)

-- The same descriptors are open, and `blocks` blocks are allocated.
abbrev pub Holds : List ℕ → ℕ → Process → Type 0
Holds fds blocks q = (q.fds ≡ fds) × (q.blocks ≡ blocks)

Holds-close_loop :
    (answers : List Closing) (fd : ℕ) (p : Process)
    → Closes answers
    → Holds (without fd p.fds) p.blocks (close_loop answers fd p)
unfolding close_loop
Holds-close_loop _ fd p (once rest) = (refl, refl)
Holds-close_loop _ fd p (released rest) = (refl, refl)
Holds-close_loop _ fd p (again rest h) = Holds-close_loop rest fd (set_errno Errno.eintr p) h

-- What `yo_file_open` leaves, by what open answers: a descriptor that is closed with its handle however often close is interrupted;
-- or a code, and a block that nothing refers to.
abbrev pub OpensAndCloses : (answers : List Closing) → Process → Answer ℕ → Type 0
OpensAndCloses answers p (done fd) =
    ((file_open true (done fd) p).handle ≡ some fd)
    × Holds p.fds p.blocks
        (fd_close answers (record { fd = fd; owned = true }) (file_open true (done fd) p).process)
OpensAndCloses answers p (fails e) =
    ((file_open true (fails e) p).code ≡ conv_errno e)
    × ((file_open true (fails e) p).handle ≡ none)
    × Holds p.fds (p.blocks + 1) (file_open true (fails e) p).process

-- `yo_fd_close` gives back the descriptor and the block of a handle that `yo_file_open` made, where signals interrupt any number
-- of its calls of close before one that succeeds or that has released the descriptor although it was interrupted; where open
-- fails, `yo_file_open` returns the code of its failure and no handle, and leaves a block allocated.
pub fd_close-file_open :
    (answers : List Closing) (p : Process) (r : Answer ℕ)
    → Closes answers
    → OpensAndCloses answers p r
unfolding file_open fd_close
fd_close-file_open answers p (fails e) h = (refl, refl, (refl, refl))
fd_close-file_open answers p (done fd) h =
    let (fds, blocks) =
      Holds-close_loop answers fd (record p { fds = fd ∷ p.fds; blocks = p.blocks + 1 }) h in
    (refl, (fds ∙ rw (==_self fd) refl, omega (arith, blocks)))
