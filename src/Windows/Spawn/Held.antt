-- ===== src/Windows/Spawn/Held.antt =====
-- The handles and the memory that a call of `yo_proc_spawn` of src/win/impl.c leaves behind.
use libyaooi.Prelude.{
  one, count, ℕ, ◌+◌, ◌≤◌, ◌≡◌, refl, Option, none, some, [], arith, Bool, true, false,
}
use libyaooi.Spawn.{Ends}
use libyaooi.Spawn.Held.{at_end, total, both}
use libyaooi.Windows.Cmdline.{Text}
use libyaooi.Windows.Errors.{WinError}
use libyaooi.Windows.Spawn.{
  Attempt, given, denied, Handles, Pipe, Streams, Launch, Command, World, Spawned, closing,
  close_both, child_std_new, std_new, err_in_pipe, err_out_pipe, err_err_pipe, err_cmdline,
  err_envblock, err_procname, malloc_cwd, free_cwd, free, opening, close_child_ends, on_create,
  on_wcwd, on_procname, on_envblock, on_cmdline, on_err, on_out, on_in, proc_spawn, cmdline_of,
  envblock_of, procname_of, wcwd_of, unfreed_of,
}

abbrev asks : Option Pipe → ℕ
asks none = 0
asks (some s) = 1

-- The streams that the caller asks for.
abbrev pub asked : World → ℕ
asked w = asks w.pin + asks w.pout + asks w.perr

-- These and the converted arguments that the raw form of the command line leaves behind.
abbrev pub left : World → Command → ℕ
left w c = asked w + unfreed_of w c

-- Exactly `k` blocks where there is a process, and at most `k` where there is none.
abbrev pub BlocksLeft : ℕ → Option ℕ → Handles → Type 0
BlocksLeft k none l = l.blocks ≤ k
BlocksLeft k (some proc) l = l.blocks ≡ k

-- The handles of number `n` that are open are those of the process and of the streams.
abbrev pub Balanced : ℕ → ℕ → Spawned → Type 0
Balanced n k o =
    (count n o.left.opened ≡ count n o.left.closed + at_end n o.process + total n o.handles)
    × BlocksLeft k o.process o.left

-- In the middle of the call, where `w` handles of number `n` are owed and there are `b` blocks.
abbrev Holds : ℕ → ℕ → ℕ → Handles → Type 0
Holds n b w l = (count n l.opened ≡ count n l.closed + w) × (l.blocks ≡ b)

abbrev all_ends : ℕ → Streams → ℕ
all_ends n s = both n s.err + (both n s.out + both n s.inp)

abbrev of_cwd : Option Text → ℕ
of_cwd none = 0
of_cwd (some dir) = 1

module _ (n k : ℕ) where
  Holds-closing :
      {b : ℕ} (w : ℕ) (e : Option ℕ) (l : Handles)
      → Holds n b (at_end n e + w) l
      → Holds n b w (closing e l)
  Holds-closing w none l (h, b0) = (omega arith, b0)
  Holds-closing w (some x) l (h, b0) = (omega arith, b0)

  Holds-close_both :
      {b : ℕ} (w : ℕ) (e : Ends) (l : Handles)
      → Holds n b (both n e + w) l
      → Holds n b w (close_both e l)
  Holds-close_both w e l (h, b0) =
      Holds-closing w e.child _ (Holds-closing (at_end n e.child + w) e.parent l (omega arith, b0))

  -- The labels, with `b` blocks of the streams.
  module _ (a : Option Launch) where
    at_in_pipe :
        (b : ℕ) (i : Ends) (l : Handles)
        → b ≤ k
        → Holds n b (both n i) l
        → Balanced n k (err_in_pipe i a l)
    at_in_pipe b i l c (h, b0) =
        let (closed, kept) = Holds-close_both 0 i l (omega arith, b0) in
        (omega (arith, closed), omega (arith, kept, c))

    at_out_pipe :
        (b : ℕ) (i o : Ends) (l : Handles)
        → b ≤ k
        → Holds n b (both n o + both n i) l
        → Balanced n k (err_out_pipe i o a l)
    unfolding err_out_pipe
    at_out_pipe b i o l c h = at_in_pipe b i _ c (Holds-close_both _ o l h)

    at_err_pipe :
        (b : ℕ) (s : Streams) (l : Handles)
        → b ≤ k
        → Holds n b (all_ends n s) l
        → Balanced n k (err_err_pipe s a l)
    unfolding err_err_pipe
    at_err_pipe b s l c h = at_out_pipe b s.inp s.out _ c (Holds-close_both _ s.err l h)

    at_cmdline :
        (b : ℕ) (s : Streams) (l : Handles)
        → b ≤ k
        → Holds n (b + 1) (all_ends n s) l
        → Balanced n k (err_cmdline s a l)
    at_cmdline b s l c (h, b0) = at_err_pipe b s _ c (h, omega arith)

    at_envblock :
        (b : ℕ) (s : Streams) (l : Handles)
        → b ≤ k
        → Holds n (b + 2) (all_ends n s) l
        → Balanced n k (err_envblock s a l)
    at_envblock b s l c (h, b0) = at_cmdline b s _ c (h, omega arith)

    at_procname :
        (b : ℕ) (s : Streams) (l : Handles)
        → b ≤ k
        → Holds n (b + 3) (all_ends n s) l
        → Balanced n k (err_procname s a l)
    at_procname b s l c (h, b0) = at_envblock b s _ c (h, omega arith)

  Holds-free_cwd :
      (b w : ℕ) (d : Option Text) (l : Handles)
      → Holds n (b + of_cwd d) w l
      → Holds n b w (free_cwd d l)
  Holds-free_cwd b w none l (h, b0) = (h, omega arith)
  Holds-free_cwd b w (some dir) l (h, b0) = (h, omega arith)

  Holds-malloc_cwd :
      (b w : ℕ) (d : Option Text) (l : Handles)
      → Holds n b w l
      → Holds n (b + of_cwd d) w (malloc_cwd d l)
  Holds-malloc_cwd b w none l (h, b0) = (h, omega arith)
  Holds-malloc_cwd b w (some dir) l (h, b0) = (h, omega arith)

  Holds-close_child_ends :
      (b p : ℕ) (s : Streams) (l : Handles)
      → Holds n b (all_ends n s + p) l
      → Holds n b
          (at_end n s.err.parent + (at_end n s.out.parent + at_end n s.inp.parent) + p)
          (close_child_ends s l)
  Holds-close_child_ends b p s l (h, b0) =
      Holds-closing _ s.err.child _
        (Holds-closing _ s.out.child _ (Holds-closing _ s.inp.child l (omega arith, b0)))

  at_create :
      (r : Attempt (ℕ × ℕ)) (a : Launch) (l : Handles)
      → Holds n (k + 3 + of_cwd a.dir) (all_ends n a.std) l
      → Balanced n k (on_create r a l)
  unfolding on_create
  at_create (denied e) a l h =
      at_procname (some a) k a.std _ (omega arith) (Holds-free_cwd _ _ a.dir _ h)
  at_create (given p) a l (h, b0) =
      let l1 = free (free (free (opening p.0 (opening p.1 l)))) in
      let freed : Holds n k (all_ends n a.std + (one n p.0 + one n p.1)) (free_cwd a.dir l1) =
        Holds-free_cwd k (all_ends n a.std + (one n p.0 + one n p.1)) a.dir l1
          (omega arith, omega arith) in
      let (parents, same) =
        Holds-close_child_ends k (one n p.0 + one n p.1) a.std (free_cwd a.dir l1) freed in
      (omega (arith, parents), same)

  at_wcwd :
      (d : Option (Option Text)) (w : World) (name line block : Text) (s : Streams) (l : Handles)
      → Holds n (k + 3) (all_ends n s) l
      → Balanced n k (on_wcwd d w name line block s l)
  unfolding on_wcwd
  at_wcwd none w name line block s l h = at_procname none k s _ (omega arith) h
  at_wcwd (some dir) w name line block s l h = at_create _ _ _ (Holds-malloc_cwd (k + 3) _ dir l h)

  at_name :
      (t : Option Text) (w : World) (c : Command) (line block : Text) (s : Streams) (l : Handles)
      → Holds n (k + 2) (all_ends n s) l
      → Balanced n k (on_procname t w c line block s l)
  unfolding on_procname
  at_name none w c line block s l h = at_envblock none k s _ (omega arith) h
  at_name (some name) w c line block s l (h, b0) =
      at_wcwd (wcwd_of w c.cwd) w name line block s _ (h, omega arith)

  at_block :
      (t : Option Text) (w : World) (c : Command) (line : Text) (s : Streams) (l : Handles)
      → Holds n (k + 1) (all_ends n s) l
      → Balanced n k (on_envblock t w c line s l)
  unfolding on_envblock
  at_block none w c line s l h = at_cmdline none k s _ (omega arith) h
  at_block (some block) w c line s l (h, b0) =
      at_name (procname_of w c.argv) w c line block s _ (h, omega arith)

  at_line :
      (t : Option Text) (w : World) (c : Command) (s : Streams) (b : ℕ) (l : Handles)
      → b + unfreed_of w c ≡ k
      → Holds n b (all_ends n s) l
      → Balanced n k (on_cmdline t w c s l)
  unfolding on_cmdline
  at_line none w c s b l e (h, b0) = at_err_pipe none k s _ (omega arith) (h, omega (arith, e, b0))
  at_line (some line) w c s b l e (h, b0) =
      at_block (envblock_of w c.envp) w c line s _ (h, omega (arith, e, b0))

-- What `_yoi_win_child_std_new` leaves: the two ends and its block, and nothing where it fails.
Made : (n asking b w : ℕ) → Option Ends × Handles → Type 0
Made n asking b w (none, l) = Holds n b w l
Made n asking b w (some e, l) = Holds n (asking + b) (both n e + w) l

child_std_new-Made :
    (n : ℕ) (input memory : Bool) (p : Attempt (ℕ × ℕ)) (u : Attempt Unit) (b w : ℕ) (l : Handles)
    → Holds n b w l
    → Made n 1 b w (child_std_new input memory p u l)
unfolding Made child_std_new
child_std_new-Made n input false p u b w l h = h
child_std_new-Made n input true (denied e) u b w l (h, b0) = (h, omega arith)
child_std_new-Made n true true (given p) (denied e) b w l (h, b0) = (omega arith, omega arith)
child_std_new-Made n false true (given p) (denied e) b w l (h, b0) = (omega arith, omega arith)
child_std_new-Made n true true (given p) (given _) b w l (h, b0) = (omega arith, omega arith)
child_std_new-Made n false true (given p) (given _) b w l (h, b0) = (omega arith, omega arith)

std_new-Made :
    (n : ℕ) (input : Bool) (s : Option Pipe) (b w : ℕ) (l : Handles)
    → Holds n b w l
    → Made n (asks s) b w (std_new input s l)
unfolding Made
std_new-Made n input none b w l (h, b0) = (omega arith, omega arith)
std_new-Made n input (some s) b w l h =
    child_std_new-Made n input s.memory s.pipe s.uninherited b w l h

module _ (n : ℕ) (w : World) (c : Command) where
  at_err :
      (m : Option Ends × Handles) (i o : Ends)
      → Made n (asks w.perr) (asks w.pout + asks w.pin) (both n o + both n i) m
      → Balanced n (left w c) (on_err m w c i o)
  unfolding on_err Made
  at_err (none, l) i o h = at_out_pipe n (left w c) none _ i o l (omega arith) h
  at_err (some e, l) i o (h, b0) =
      at_line n (left w c) (cmdline_of w c) w c _ (asked w) l refl (h, omega (arith, b0))

  at_out :
      (m : Option Ends × Handles) (i : Ends)
      → Made n (asks w.pout) (asks w.pin) (both n i) m
      → Balanced n (left w c) (on_out m w c i)
  unfolding on_out Made
  at_out (none, l) i h = at_in_pipe n (left w c) none _ i l (omega arith) h
  at_out (some o, l) i h = at_err (std_new false w.perr l) i o (std_new-Made n false w.perr _ _ l h)

  at_in :
      (m : Option Ends × Handles) → Made n (asks w.pin) 0 0 m → Balanced n (left w c) (on_in m w c)
  unfolding on_in Made
  at_in (none, l) (h, b0) = (omega arith, omega arith)
  at_in (some i, l) (h, b0) =
      at_out (std_new false w.pout l) i
        (std_new-Made n false w.pout _ _ l (omega arith, omega arith))

abbrev pub untouched : WinError → Handles
untouched e = record { opened = []; closed = []; blocks = 0; error = e }

-- Whichever of its calls fails, `yo_proc_spawn` of the Windows port has closed every handle as often as it opened it,
-- but for the process and the ends of the standard streams that it gives; and of its blocks, one for each stream that was
-- asked for, and one for each argument that the raw form of the command line converts, are left where it gives a process, and
-- at most these where it fails.
pub proc_spawn-Balanced :
    (w : World) (c : Command) (e : WinError) (n : ℕ)
    → Balanced n (left w c) (proc_spawn w c (untouched e))
unfolding proc_spawn
proc_spawn-Balanced w c e n =
    at_in n w c _ (std_new-Made n true w.pin 0 0 (untouched e) (refl, refl))
