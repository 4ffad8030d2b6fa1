-- ===== src/Spawn/Reports.antt =====
-- What `yo_proc_spawn` tells its caller of the child.
use libyaooi.Prelude.{
  ℕ, ◌≡◌, refl, ◌∙◌, ap, Option, none, some, Bool, true, false, List, ◌∷◌, if◌then◌else◌,
}
use libyaooi.Errno.{Code}
use libyaooi.Errno.Os.{Errno}
use libyaooi.Errno.Unix.{conv_errno}
use libyaooi.Socket.{Answer, done, fails, all_done}
use libyaooi.Spawn.{
  fcntls, Ledger, Frame, Stream, Answers, Outcome, close, make, mkstd, proc_spawn, on_pipe,
  on_fcntls, making_in, making_out, making_err, on_fork, on_status, err_read_status, err_fork,
  err_mkstd_err, err_mkstd_out, err_fnctl_status,
}
use libyaooi.Spawn.Child.{ChildAnswers, child, calls, first_failure, reported}

-- `pipe`, `fcntl` and `fork` succeed, and so do malloc and `pipe` for a stream that is asked for.
abbrev pub Given : Option Stream → Type 0
Given none = Unit
Given (some s) = (s.memory ≡ true) × ((p : ℕ × ℕ) × (s.pipe ≡ done p))

abbrev pub Prepared : Answers → ℕ → Type 0
Prepared a pid =
    ((s : ℕ × ℕ) × (a.pipe ≡ done s))
    × (a.cloexec_read ≡ done tt)
    × (a.cloexec_write ≡ done tt)
    × (a.nonblock ≡ done tt)
    × Given a.pin
    × Given a.pout
    × Given a.perr
    × (a.fork ≡ done pid)
    × (a.waited ≡ done tt)

-- The result and the process, where the first failure in the child is `failure`.
abbrev pub told : Option Errno → ℕ → Option Code × Option ℕ
told none pid = (some Code.ok, some pid)
told (some e) pid = (conv_errno e, none)

abbrev pub answered : Outcome → Option Code × Option ℕ
answered o = (o.result, o.pid)

errno-close : (e : Option ℕ) (l : Ledger) → (close e l).errno ≡ l.errno
errno-close none l = refl
errno-close (some x) l = refl

abbrev Told : Answers → ℕ → Option Errno → Outcome → Type 0
Told a pid failure o =
    a.waited ≡ done tt → a.status ≡ reported failure → answered o ≡ told failure pid

Told-on_status :
    (failure : Option Errno) (a : Answers) (pid : ℕ) (f : Frame) (l : Ledger)
    → a.waited ≡ done tt
    → answered (on_status (reported failure) a pid f l) ≡ told failure pid
unfolding on_status err_read_status err_fork err_mkstd_err err_mkstd_out err_fnctl_status
Told-on_status none a pid f l w = refl
Told-on_status (some e) a pid f l w = rw w (simp errno-close refl)

module _ (a : Answers) (pid : ℕ) (failure : Option Errno) where
  Told-on_fork : (f : Frame) (l : Ledger) → Told a pid failure (on_fork (done pid) a f l)
  unfolding on_fork
  Told-on_fork f l w s = simp s (Told-on_status failure a pid _ _ w)

  made :
      (input : Bool) (s : Option Stream) (l : Ledger)
      → Given s
      → (e : libyaooi.Spawn.Ends) × ((l1 : Ledger) × (make input s l ≡ (some e, l1)))
  unfolding mkstd
  made input none l g = (_, (_, refl))
  made input (some s) l (m, (p, e)) = rw m (rw e (_, (_, refl)))

  Told-making_err :
      (f : Frame) (l : Ledger)
      → Given a.perr
      → a.fork ≡ done pid
      → Told a pid failure (making_err a f l)
  unfolding making_err
  Told-making_err f l g k =
      let (e, (l1, h)) = made false a.perr l g in rw (h, making_err) (simp k (Told-on_fork _ _))

  Told-making_out :
      (f : Frame) (l : Ledger)
      → Given a.pout
      → Given a.perr
      → a.fork ≡ done pid
      → Told a pid failure (making_out a f l)
  unfolding making_out
  Told-making_out f l go g k =
      let (e, (l1, h)) = made false a.pout l go in rw (h, making_out) (Told-making_err _ _ g k)

  Told-making_in :
      (f : Frame) (l : Ledger)
      → Given a.pin
      → Given a.pout
      → Given a.perr
      → a.fork ≡ done pid
      → Told a pid failure (making_in a f l)
  unfolding making_in
  Told-making_in f l gi go g k =
      let (e, (l1, h)) = made true a.pin l gi in rw (h, making_in) (Told-making_out _ _ go g k)

  Told-on_fcntls :
      (r : Answer Unit) (s : ℕ × ℕ) (l : Ledger)
      → r ≡ done tt
      → Given a.pin
      → Given a.pout
      → Given a.perr
      → a.fork ≡ done pid
      → Told a pid failure (on_fcntls r a s l)
  unfolding on_fcntls
  Told-on_fcntls r s l e gi go g k = rw e (Told-making_in _ _ gi go g k)

  Told-on_pipe :
      (r : Answer (ℕ × ℕ)) (s : ℕ × ℕ) (l : Ledger)
      → r ≡ done s
      → fcntls a ≡ done tt
      → Given a.pin
      → Given a.pout
      → Given a.perr
      → a.fork ≡ done pid
      → Told a pid failure (on_pipe r a l)
  unfolding on_pipe
  Told-on_pipe r s l e f gi go g k = rw e (Told-on_fcntls (fcntls a) s _ f gi go g k)

all_done-done :
    (x y z : Answer Unit) → x ≡ done tt → y ≡ done tt → z ≡ done tt → all_done x y z ≡ done tt
all_done-done x y z ex ey ez = rw ex (rw ey (rw ez refl))

fcntls-done :
    (a : Answers)
    → a.cloexec_read ≡ done tt
    → a.cloexec_write ≡ done tt
    → a.nonblock ≡ done tt
    → fcntls a ≡ done tt
fcntls-done a r w b = all_done-done _ _ _ r w b

-- A call that is made only where it is needed, and succeeds.
abbrev Fine : Bool → Answer Unit → Type 0
Fine false r = Unit
Fine true r = r ≡ done tt

-- How the child ends: the program runs, or the call that fails is the first one.
pub data Ends (c : ChildAnswers) : Option Errno → Type 0 where
  no_input : (e : Errno) → c.has_in ≡ true → c.dup_in ≡ fails e → Ends c (some e)
  no_output :
      (e : Errno)
      → Fine c.has_in c.dup_in
      → c.has_out ≡ true
      → c.dup_out ≡ fails e
      → Ends c (some e)
  no_error :
      (e : Errno)
      → Fine c.has_in c.dup_in
      → Fine c.has_out c.dup_out
      → c.has_err ≡ true
      → c.dup_err ≡ fails e
      → Ends c (some e)
  no_directory :
      (e : Errno)
      → Fine c.has_in c.dup_in
      → Fine c.has_out c.dup_out
      → Fine c.has_err c.dup_err
      → c.has_cwd ≡ true
      → c.chdir ≡ fails e
      → Ends c (some e)
  no_mask :
      (e : Errno)
      → Fine c.has_in c.dup_in
      → Fine c.has_out c.dup_out
      → Fine c.has_err c.dup_err
      → Fine c.has_cwd c.chdir
      → c.setmask ≡ fails e
      → Ends c (some e)
  no_program :
      (e : Errno)
      → Fine c.has_in c.dup_in
      → Fine c.has_out c.dup_out
      → Fine c.has_err c.dup_err
      → Fine c.has_cwd c.chdir
      → c.setmask ≡ done tt
      → c.exec ≡ fails e
      → Ends c (some e)
  runs :
      Fine c.has_in c.dup_in
      → Fine c.has_out c.dup_out
      → Fine c.has_err c.dup_err
      → Fine c.has_cwd c.chdir
      → c.setmask ≡ done tt
      → c.exec ≡ done tt
      → Ends c none

passed :
    (needed : Bool) (r : Answer Unit) (rest : List (Answer Unit))
    → Fine needed r
    → first_failure ((if needed then r else done tt) ∷ rest) ≡ first_failure rest
unfolding first_failure
passed false r rest h = refl
passed true r rest h = rw h refl

stopped_at :
    (needed : Bool) (r : Answer Unit) (rest : List (Answer Unit)) (e : Errno)
    → needed ≡ true
    → r ≡ fails e
    → first_failure ((if needed then r else done tt) ∷ rest) ≡ some e
unfolding first_failure
stopped_at needed r rest e n h = rw n (rw h refl)

first_failure-Ends :
    (c : ChildAnswers) (failure : Option Errno) → Ends c failure → first_failure (calls c) ≡ failure
unfolding first_failure
first_failure-Ends c _ (no_input e n h) = stopped_at c.has_in c.dup_in _ e n h
first_failure-Ends c _ (no_output e i n h) =
    passed c.has_in c.dup_in _ i ∙ stopped_at c.has_out c.dup_out _ e n h
first_failure-Ends c _ (no_error e i o n h) =
    passed c.has_in c.dup_in _ i
    ∙ passed c.has_out c.dup_out _ o
    ∙ stopped_at c.has_err c.dup_err _ e n h
first_failure-Ends c _ (no_directory e i o r n h) =
    passed c.has_in c.dup_in _ i
    ∙ passed c.has_out c.dup_out _ o
    ∙ passed c.has_err c.dup_err _ r
    ∙ stopped_at c.has_cwd c.chdir _ e n h
first_failure-Ends c _ (no_mask e i o r d h) =
    passed c.has_in c.dup_in _ i
    ∙ passed c.has_out c.dup_out _ o
    ∙ passed c.has_err c.dup_err _ r
    ∙ passed c.has_cwd c.chdir _ d
    ∙ stopped_at true c.setmask _ e refl h
first_failure-Ends c _ (no_program e i o r d m h) =
    passed c.has_in c.dup_in _ i
    ∙ passed c.has_out c.dup_out _ o
    ∙ passed c.has_err c.dup_err _ r
    ∙ passed c.has_cwd c.chdir _ d
    ∙ passed true c.setmask _ m
    ∙ stopped_at true c.exec _ e refl h
first_failure-Ends c _ (runs i o r d m h) =
    passed c.has_in c.dup_in _ i
    ∙ passed c.has_out c.dup_out _ o
    ∙ passed c.has_err c.dup_err _ r
    ∙ passed c.has_cwd c.chdir _ d
    ∙ passed true c.setmask _ m
    ∙ passed true c.exec _ h

-- Where the calls of the parent succeed, `yo_proc_spawn` returns YO_OK and the process where every call that the child makes
-- succeeds; else it returns the code of the first of them that fails, in the order dup2 for each stream that is
-- asked for, chdir where there is a directory, the signal mask, execve, and gives no process.
pub proc_spawn-child :
    (a : Answers) (pid : ℕ) (c : ChildAnswers) (failure : Option Errno) (l : Ledger)
    → Prepared a pid
    → a.status ≡ child c
    → Ends c failure
    → answered (proc_spawn a l) ≡ told failure pid
unfolding proc_spawn
proc_spawn-child a pid c failure l ((s, p), r, w, b, gi, go, ge, k, t) st ends =
    Told-on_pipe a pid failure a.pipe s _ p (fcntls-done a r w b) gi go ge k t
      (st ∙ ap reported (first_failure-Ends c failure ends))
