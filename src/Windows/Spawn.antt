-- ===== src/Windows/Spawn.antt =====
-- `yo_proc_spawn` and `_yoi_win_child_std_new` of src/win/impl.c: the handles and blocks of memory that they take
-- and give back, on every path, and what CreateProcessW is given. What malloc and the system's calls answer are
-- arguments; CloseHandle of an open handle succeeds.

pub mod Held
pub mod Delivered
mod Tests
use libyaooi.Prelude.{
  ℕ, ◌+◌, ◌-◌, Bool, true, false, Option, none, some, List, [], ◌∷◌, ◌==◌, if◌then◌else◌,
}
use libyaooi.Errno.{Code}
use libyaooi.Spawn.{Ends, no_ends, ends}
use libyaooi.Windows.Cmdline.{Text, noescape, argv_to_cmdline}
use libyaooi.Windows.Conversions.{Conversions, mb_err_invalid_chars, conv_utf8}
pub use libyaooi.Windows.Conversions.{Attempt, given, denied}
use libyaooi.Windows.Env.{envp_to_envblock}
use libyaooi.Windows.Errno.{conv_errno}
use libyaooi.Windows.Errors.{WinError}

-- The handles that were opened and closed, the blocks that are allocated, and the last error.
pub record Handles : Type 0 where
  pub opened : List ℕ
  pub closed : List ℕ
  pub blocks : ℕ
  pub error : WinError

-- What `_yoi_win_child_std_new` gets for one of the standard streams, where the caller asks for it; the pipe is
-- its end to read from and its end to write to.
pub record Pipe : Type 0 where
  pub memory : Bool
  pub pipe : Attempt (ℕ × ℕ)
  pub uninherited : Attempt Unit

-- The ends of the standard streams.
pub record Streams : Type 0 where
  pub inp : Ends
  pub out : Ends
  pub err : Ends

-- What CreateProcessW is given.
pub record Launch : Type 0 where
  pub creation_flags : ℕ
  pub name : Text
  pub line : Text
  pub block : Text
  pub dir : Option Text
  pub std : Streams

-- The arguments of `yo_proc_spawn`.
pub record Command : Type 0 where
  pub flags : ℕ
  pub argv : List Text
  pub envp : Option (List Text)
  pub cwd : Option Text

-- What the call meets. `line_memory` is whether there is memory for the buffer of the command line; `conv_error` is the
-- last error behind a text that is not made, where `GetLastError` is asked. CreateProcessW gives the process
-- and its thread.
pub record World : Type 0 where
  pub pin : Option Pipe
  pub pout : Option Pipe
  pub perr : Option Pipe
  pub texts : Conversions
  pub line_memory : Bool
  pub conv_error : WinError
  pub create : Launch → Attempt (ℕ × ℕ)

-- The result, with the process, the handles that are stored through `pin`, `pout` and `perr`, and what
-- CreateProcessW was given.
pub record Spawned : Type 0 where
  pub code : Option Code
  pub process : Option ℕ
  pub handles : List (Option ℕ)
  pub launched : Option Launch
  pub left : Handles

abbrev pub set_error : WinError → Handles → Handles
set_error e l = record l { error = e }

abbrev pub opening : ℕ → Handles → Handles
opening h l = record l { opened = h ∷ l.opened }

-- `if (h) CloseHandle(h);`
abbrev pub closing : Option ℕ → Handles → Handles
closing none l = l
closing (some h) l = record l { closed = h ∷ l.closed }

abbrev pub close_both : Ends → Handles → Handles
close_both e l = closing e.child (closing e.parent l)

abbrev pub malloc : Handles → Handles
malloc l = record l { blocks = l.blocks + 1 }

abbrev pub free : Handles → Handles
free l = record l { blocks = l.blocks - 1 }

-- `_yoi_win_child_std_new`
unfoldable pub child_std_new :
    (input memory : Bool)
    → Attempt (ℕ × ℕ)
    → (uninherited : Attempt Unit) → Handles
    → Option Ends × Handles
child_std_new input false pipe uninherited l = (none, l)
child_std_new input true (denied e) uninherited l = (none, free (set_error e (malloc l)))
child_std_new input true (given p) (denied e) l =
    (none, free (close_both (ends input p) (set_error e (opening p.0 (opening p.1 (malloc l))))))
child_std_new input true (given p) (given _) l =
    (some (ends input p), opening p.0 (opening p.1 (malloc l)))

-- Its call, where the caller asks for the stream.
abbrev pub std_new : (input : Bool) → Option Pipe → Handles → Option Ends × Handles
std_new input none l = (some no_ends, l)
std_new input (some s) l = child_std_new input s.memory s.pipe s.uninherited l

-- The labels at the end, each of which falls through to the next.
abbrev pub err_end : Option Launch → Handles → Spawned
err_end a l = record {
  code = conv_errno l.error;
  process = none;
  handles = [];
  launched = a;
  left = l;
}

abbrev pub err_in_pipe : Ends → Option Launch → Handles → Spawned
err_in_pipe i a l = err_end a (close_both i l)

unfoldable pub err_out_pipe : (inp out : Ends) → Option Launch → Handles → Spawned
err_out_pipe i o a l = err_in_pipe i a (close_both o l)

unfoldable pub err_err_pipe : Streams → Option Launch → Handles → Spawned
err_err_pipe s a l = err_out_pipe s.inp s.out a (close_both s.err l)

-- A text, or NULL.
abbrev pub option_of : Attempt Text → Option Text
option_of (denied e) = none
option_of (given t) = some t

-- `yoi_win_conv_utf8(arg, 0)`
abbrev pub wide_of : World → Text → Option Text
wide_of w arg = option_of (conv_utf8 w.texts 0 arg)

-- `_yoi_win_argv_to_cmdline`
abbrev pub cmdline_of : World → Command → Option Text
cmdline_of w c = if w.line_memory then argv_to_cmdline (wide_of w) c.flags c.argv else none

-- The converted arguments that the raw form leaves behind, up to one that cannot be converted.
abbrev pub unfreed : (Text → Option Text) → List Text → ℕ
unfreed conv [] = 0
unfreed conv (arg ∷ args) =
    let rest = unfreed conv args in elim (conv arg) [ none ↦ 0 | some warg ↦ 1 + rest ]

abbrev pub unfreed_of : World → Command → ℕ
unfreed_of w c =
    if w.line_memory then (if c.flags == noescape then unfreed (wide_of w) c.argv else 0) else 0

abbrev pub leave : ℕ → Handles → Handles
leave n l = record l { blocks = l.blocks + n }

-- `_yoi_win_envp_to_envblock`, which gives NULL for NULL.
abbrev pub envblock_of : World → Option (List Text) → Option Text
envblock_of w none = none
envblock_of w (some envs) =
    envp_to_envblock (λ t. option_of (w.texts.multi_byte_to_wide_char mb_err_invalid_chars t)) envs

-- `yoi_win_conv_utf8(argv[0], 0)`; the conversion of NULL fails.
abbrev pub procname_of : World → List Text → Option Text
procname_of w [] = none
procname_of w (arg ∷ args) = wide_of w arg

-- `wcwd` where it is not an error, none where it is.
abbrev pub wcwd_of : World → Option Text → Option (Option Text)
wcwd_of w none = some none
wcwd_of w (some dir) = elim (wide_of w dir) [ none ↦ none | some wdir ↦ some (some wdir) ]

-- The block of `wcwd`, which is NULL without a `cwd`.
abbrev pub malloc_cwd : Option Text → Handles → Handles
malloc_cwd none l = l
malloc_cwd (some dir) l = malloc l

abbrev pub free_cwd : Option Text → Handles → Handles
free_cwd none l = l
free_cwd (some dir) l = free l

-- The labels of the texts.
abbrev pub err_cmdline : Streams → Option Launch → Handles → Spawned
err_cmdline s a l = err_err_pipe s a (free l)

abbrev pub err_envblock : Streams → Option Launch → Handles → Spawned
err_envblock s a l = err_cmdline s a (free l)

abbrev pub err_procname : Streams → Option Launch → Handles → Spawned
err_procname s a l = err_envblock s a (free l)

abbrev pub err_wcwd : Launch → Handles → Spawned
err_wcwd a l = err_procname a.std (some a) (free_cwd a.dir l)

abbrev pub close_child_ends : Streams → Handles → Handles
close_child_ends s l = closing s.err.child (closing s.out.child (closing s.inp.child l))

abbrev pub finished : ℕ → ℕ → Launch → Handles → Spawned
finished proc thread a l = record {
  code = some Code.ok;
  process = some proc;
  handles = a.std.inp.parent ∷ a.std.out.parent ∷ a.std.err.parent ∷ [];
  launched = some a;
  left = closing (some thread) (close_child_ends a.std (free_cwd a.dir (free (free (free l)))));
}

-- Behind CreateProcessW.
unfoldable pub on_create : Attempt (ℕ × ℕ) → Launch → Handles → Spawned
on_create (denied e) a l = err_wcwd a (set_error e l)
on_create (given p) a l = finished p.0 p.1 a (opening p.0 (opening p.1 l))

unfoldable pub on_wcwd :
    Option (Option Text) → World → (name line block : Text) → Streams → Handles → Spawned
on_wcwd none w name line block s l = err_procname s none (set_error w.conv_error l)
on_wcwd (some dir) w name line block s l =
    let a : Launch = record {
      creation_flags = 0;
      name = name;
      line = line;
      block = block;
      dir = dir;
      std = s;
    } in
    on_create (w.create a) a (malloc_cwd dir l)

unfoldable pub on_procname :
    Option Text → World → Command → (line block : Text) → Streams → Handles → Spawned
on_procname none w c line block s l = err_envblock s none (set_error w.conv_error l)
on_procname (some name) w c line block s l =
    on_wcwd (wcwd_of w c.cwd) w name line block s (malloc l)

unfoldable pub on_envblock :
    Option Text → World → Command → (line : Text) → Streams → Handles → Spawned
on_envblock none w c line s l = err_cmdline s none (set_error w.conv_error l)
on_envblock (some block) w c line s l =
    on_procname (procname_of w c.argv) w c line block s (malloc l)

unfoldable pub on_cmdline : Option Text → World → Command → Streams → Handles → Spawned
on_cmdline none w c s l = err_err_pipe s none (set_error w.conv_error (leave (unfreed_of w c) l))
on_cmdline (some line) w c s l =
    on_envblock (envblock_of w c.envp) w c line s (malloc (leave (unfreed_of w c) l))

-- The three pipes.
unfoldable pub on_err : Option Ends × Handles → World → Command → (inp out : Ends) → Spawned
on_err (none, l) w c i o = err_out_pipe i o none l
on_err (some e, l) w c i o =
    on_cmdline (cmdline_of w c) w c (record { inp = i; out = o; err = e }) l

unfoldable pub on_out : Option Ends × Handles → World → Command → (inp : Ends) → Spawned
on_out (none, l) w c i = err_in_pipe i none l
on_out (some o, l) w c i = on_err (std_new false w.perr l) w c i o

unfoldable pub on_in : Option Ends × Handles → World → Command → Spawned
on_in (none, l) w c = err_end none l
on_in (some i, l) w c = on_out (std_new false w.pout l) w c i

-- `yo_proc_spawn`
unfoldable pub proc_spawn : World → Command → Handles → Spawned
proc_spawn w c l = on_in (std_new true w.pin l) w c
