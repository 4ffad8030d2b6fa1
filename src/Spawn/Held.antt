-- ===== src/Spawn/Held.antt =====
-- The descriptors, children and memory that a call of `yo_proc_spawn` leaves behind.
use libyaooi.Prelude.{
  one, count, ℕ, ◌+◌, ◌-◌, ◌⊎◌, inl, inr, ◌≡◌, refl, Option, none, some, List, [], ◌∷◌, arith, Bool,
  true, false,
}
use libyaooi.Socket.{Answer, done, fails}
use libyaooi.Errno.Os.{Errno}
use libyaooi.Spawn.{
  Ledger, Ends, Frame, Stream, Status, read_fails, code, closed_pipe, partial, Answers, Outcome,
  set_errno, close, close_ends, on_wait, mkstd, make, err_fnctl_status, err_mkstd_out,
  err_mkstd_err, err_fork, err_read_status, parent_frame, close_child_ends, on_status, on_fork,
  on_fcntls, on_pipe, making_err, making_out, making_in, fcntls, status_frame, proc_spawn,
}

abbrev pub at_end : ℕ → Option ℕ → ℕ
at_end n none = 0
at_end n (some x) = one n x

abbrev pub total : ℕ → List (Option ℕ) → ℕ
total n [] = 0
total n (e ∷ es) = at_end n e + total n es

abbrev pub both : ℕ → Ends → ℕ
both n e = at_end n e.parent + at_end n e.child

abbrev started : Option ℕ → ℕ
started none = 0
started (some pid) = 1

-- Every descriptor was closed as often as it was opened, but for those of the handles, and `k` children are left beside the
-- one of the process that is given.
abbrev pub Ended : (n k : ℕ) → Outcome → Type 0
Ended n k o =
    (count n o.ledger.opened ≡ count n o.ledger.closed + total n o.handles)
    × (o.ledger.children ≡ k + started o.pid)

-- No child is left; or waitpid has failed, no process is given, and the child is left.
abbrev pub Settled : ℕ → Answers → Outcome → Type 0
Settled n a o = Ended n 0 o ⊎ (((e : Errno) × (a.waited ≡ fails e)) × (o.pid ≡ none) × Ended n 1 o)

-- In the middle of the call, where the frame owes `w` descriptors of number `n` and `k` children run.
abbrev Holds : ℕ → ℕ → ℕ → Ledger → Type 0
Holds n k w l = (count n l.opened ≡ count n l.closed + w) × (l.children ≡ k)

abbrev owed : ℕ → Frame → ℕ
owed n f = both n f.err + (both n f.out + (both n f.inp + both n f.status))

module _ (n : ℕ) where
  Holds-close :
      {k : ℕ} (w : ℕ) (e : Option ℕ) (l : Ledger)
      → Holds n k (at_end n e + w) l
      → Holds n k w (close e l)
  Holds-close w none l (h, k0) = (omega arith, k0)
  Holds-close w (some x) l (h, k0) = (omega arith, k0)

  Holds-close_ends :
      {k : ℕ} (w : ℕ) (e : Ends) (l : Ledger)
      → Holds n k (both n e + w) l
      → Holds n k w (close_ends e l)
  Holds-close_ends w e l (h, k0) =
      Holds-close w e.child _ (Holds-close (at_end n e.child + w) e.parent l (omega arith, k0))

  -- The labels.
  at_fnctl :
      {k : ℕ} (f : Frame) (l : Ledger)
      → Holds n k (both n f.status) l
      → Ended n k (err_fnctl_status f l)
  unfolding err_fnctl_status
  at_fnctl f l (h, k0) =
      let (closed, kept) = Holds-close_ends 0 f.status l (omega arith, k0) in
      (omega (arith, closed), omega (arith, kept))

  at_mkstd_out :
      {k : ℕ} (f : Frame) (l : Ledger)
      → Holds n k (both n f.inp + both n f.status) l
      → Ended n k (err_mkstd_out f l)
  unfolding err_mkstd_out
  at_mkstd_out f l h = at_fnctl f _ (Holds-close_ends _ f.inp l h)

  at_mkstd_err :
      {k : ℕ} (f : Frame) (l : Ledger)
      → Holds n k (both n f.out + (both n f.inp + both n f.status)) l
      → Ended n k (err_mkstd_err f l)
  unfolding err_mkstd_err
  at_mkstd_err f l h = at_mkstd_out f _ (Holds-close_ends _ f.out l h)

  at_fork : {k : ℕ} (f : Frame) (l : Ledger) → Holds n k (owed n f) l → Ended n k (err_fork f l)
  unfolding err_fork
  at_fork f l h = at_mkstd_err f _ (Holds-close_ends _ f.err l h)

  at_wait :
      (a : Answers) (f : Frame) (l : Ledger) (r : Answer Unit)
      → a.waited ≡ r
      → Holds n 1 (owed n f) l
      → Settled n a (err_fork f (on_wait r l))
  unfolding err_fork err_mkstd_err err_mkstd_out err_fnctl_status
  at_wait a f l (fails e) w (h, k0) = inr ((e, w), refl, at_fork f (set_errno e l) (h, k0))
  at_wait a f l (done _) w (h, k0) =
      inl (at_fork {k = 0} f (record l { children = l.children - 1 }) (h, omega arith))

  at_read_status :
      (a : Answers) (f : Frame) (l : Ledger)
      → Holds n 1 (owed n f) l
      → Settled n a (err_read_status a f l)
  unfolding err_read_status
  at_read_status a f l h = at_wait a f l a.waited refl h

  Holds-close_child_ends :
      (f : Frame) (l : Ledger)
      → Holds n 1 (owed n f) l
      → Holds n 1
          (at_end n f.err.parent + (at_end n f.out.parent + at_end n f.inp.parent))
          (close_child_ends f l)
  Holds-close_child_ends f l (h, k0) = Holds-close _ f.status.parent _ (
      Holds-close _ f.status.child _ (
        Holds-close _ f.err.child _
          (Holds-close _ f.out.child _ (Holds-close _ f.inp.child l (omega arith, k0)))))

  -- What the parent has when it reads the status pipe.
  Reading : Frame → Ledger → Type 0
  Reading f l =
      Holds n 1 (at_end n f.err.parent + (at_end n f.out.parent + at_end n f.inp.parent)) l

  at_failure :
      (a : Answers) (f : Frame) (e : Errno) (l : Ledger)
      → Reading f l
      → Settled n a (err_read_status a (parent_frame f) (set_errno e l))
  unfolding Reading
  at_failure a f e l (h, k0) = at_read_status a (parent_frame f) _ (omega arith, k0)

  at_status :
      (s : Status) (a : Answers) (pid : ℕ) (f : Frame) (l : Ledger)
      → Reading f l
      → Settled n a (on_status s a pid (parent_frame f) l)
  unfolding Reading on_status
  at_status (read_fails e) a pid f l h = at_failure a f e l h
  at_status (code e) a pid f l h = at_failure a f e l h
  at_status closed_pipe a pid f l (h, k0) = inl (omega arith, omega arith)
  at_status partial a pid f l h = at_failure a f Errno.epipe l h

  at_on_fork :
      (r : Answer ℕ) (a : Answers) (f : Frame) (l : Ledger)
      → Holds n 0 (owed n f) l
      → Settled n a (on_fork r a f l)
  unfolding on_fork Reading
  at_on_fork (fails e) a f l h = inl (at_fork f (set_errno e l) h)
  at_on_fork (done pid) a f l (h, k0) =
      at_status a.status a pid f _
        (Holds-close_child_ends f (record l { children = l.children + 1 }) (h, omega arith))

  -- What `_yoi_unix_mkstd` leaves: the two ends that it gives, and nothing where it fails.
  Made : ℕ → Option Ends × Ledger → Type 0
  Made w (none, l) = Holds n 0 w l
  Made w (some e, l) = Holds n 0 (both n e + w) l

  Made-mkstd :
      (input memory : Bool) (p : Answer (ℕ × ℕ)) (w : ℕ) (l : Ledger)
      → Holds n 0 w l
      → Made w (mkstd input memory p l)
  unfolding mkstd Made
  Made-mkstd input false p w l h = h
  Made-mkstd input true (fails e) w l (h, k0) = (h, k0)
  Made-mkstd true true (done p) w l (h, k0) = (omega arith, k0)
  Made-mkstd false true (done p) w l (h, k0) = (omega arith, k0)

  Made-make :
      (input : Bool) (s : Option Stream) (w : ℕ) (l : Ledger)
      → Holds n 0 w l
      → Made w (make input s l)
  unfolding Made
  Made-make input none w l (h, k0) = (omega arith, k0)
  Made-make input (some s) w l h = Made-mkstd input s.memory s.pipe w l h

  err-Made :
      (a : Answers) (f : Frame) (m : Option Ends × Ledger)
      → Made (both n f.out + (both n f.inp + both n f.status)) m
      → Settled n a (elim m.0 [
        | none ↦ err_mkstd_err f m.1
        | some e ↦ on_fork a.fork a (record f { err = e }) m.1
      ])
  unfolding Made
  err-Made a f (none, l) h = inl (at_mkstd_err f l h)
  err-Made a f (some e, l) h = at_on_fork a.fork a (record f { err = e }) l h

  at_making_err :
      (a : Answers) (f : Frame) (l : Ledger)
      → Holds n 0 (both n f.out + (both n f.inp + both n f.status)) l
      → Settled n a (making_err a f l)
  unfolding making_err
  at_making_err a f l h = err-Made a f _ (Made-make false a.perr _ l h)

  out-Made :
      (a : Answers) (f : Frame) (m : Option Ends × Ledger)
      → Made (both n f.inp + both n f.status) m
      → Settled n a (elim m.0 [
        | none ↦ err_mkstd_out f m.1
        | some e ↦ making_err a (record f { out = e }) m.1
      ])
  unfolding Made
  out-Made a f (none, l) h = inl (at_mkstd_out f l h)
  out-Made a f (some e, l) h = at_making_err a (record f { out = e }) l h

  at_making_out :
      (a : Answers) (f : Frame) (l : Ledger)
      → Holds n 0 (both n f.inp + both n f.status) l
      → Settled n a (making_out a f l)
  unfolding making_out
  at_making_out a f l h = out-Made a f _ (Made-make false a.pout _ l h)

  in-Made :
      (a : Answers) (f : Frame) (m : Option Ends × Ledger)
      → Made (both n f.status) m
      → Settled n a (elim m.0 [
        | none ↦ err_fnctl_status f m.1
        | some e ↦ making_out a (record f { inp = e }) m.1
      ])
  unfolding Made
  in-Made a f (none, l) h = inl (at_fnctl f l h)
  in-Made a f (some e, l) h = at_making_out a (record f { inp = e }) l h

  at_making_in :
      (a : Answers) (f : Frame) (l : Ledger)
      → Holds n 0 (both n f.status) l
      → Settled n a (making_in a f l)
  unfolding making_in
  at_making_in a f l h = in-Made a f _ (Made-make true a.pin _ l h)

  at_fcntls :
      (r : Answer Unit) (a : Answers) (s : ℕ × ℕ) (l : Ledger)
      → Holds n 0 (one n s.0 + one n s.1) l
      → Settled n a (on_fcntls r a s l)
  unfolding on_fcntls
  at_fcntls (fails e) a s l h = inl (at_fnctl (status_frame s) _ h)
  at_fcntls (done _) a s l h = at_making_in a (status_frame s) l h

  at_pipe :
      (r : Answer (ℕ × ℕ)) (a : Answers) (l : Ledger) → Holds n 0 0 l → Settled n a (on_pipe r a l)
  unfolding on_pipe
  at_pipe (fails e) a l (h, k0) = inl (omega arith, omega arith)
  at_pipe (done s) a l (h, k0) = at_fcntls (fcntls a) a s _ (omega arith, k0)

abbrev pub begun : Errno → Ledger
begun e = record { opened = []; closed = []; blocks = 0; children = 0; errno = e }

-- Whichever of its calls fails, `yo_proc_spawn` has closed every descriptor as often as it opened it, but for the
-- ends of the standard streams whose handles it gives; and no child is left but the one whose process it gives, or, where waitpid
-- fails, the child that it started and gives no process for.
pub proc_spawn-Settled : (a : Answers) (e : Errno) (n : ℕ) → Settled n a (proc_spawn a (begun e))
unfolding proc_spawn
proc_spawn-Settled a e n = at_pipe n a.pipe a _ (refl, refl)
