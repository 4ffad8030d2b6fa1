-- ===== src/Ansi/Handles/Released.antt =====
-- What a handle of src/ansi/impl.c holds is given back when it is closed.
use libyaooi.Prelude.{ℕ, ◌≡◌, refl, Bool, true, false, Option, none, some, arith}
use libyaooi.Errno.Os.{Errno}
use libyaooi.Ansi.Open.{Mode, Opened, at_path, stream, open_mode}
use libyaooi.Ansi.Handles.{
  Files, Handle, malloc, on_mode, on_fopen, file_open, is_eintr, ended, fd_close,
}
use libyaooi.Paths.{Text}

abbrev pub Uninterrupted : Option Errno → Type 0
Uninterrupted none = Unit
Uninterrupted (some e) = is_eintr e ≡ false

-- A handle whose close leaves what was there before; or no handle, and the block that was allocated for it.
abbrev pub Balanced : Option Errno → Files → Option Handle → Files → Type 0
Balanced fclose q none r = r ≡ malloc q
Balanced fclose q (some h) r = fd_close fclose h r ≡ ended q

unchanged :
    (q : Files) (s b : ℕ)
    → s ≡ q.streams
    → b ≡ q.blocks
    → ended (record { streams = s; blocks = b }) ≡ ended q
unchanged q s b e d = rw (e, d) refl

Balanced-on_fopen :
    (fclose : Option Errno) (q : Files) (f : Option ℕ)
    → Uninterrupted fclose
    → Balanced fclose q (on_fopen f (malloc q)).1 (on_fopen f (malloc q)).2
unfolding fd_close
Balanced-on_fopen fclose q none u = refl
Balanced-on_fopen none q (some f) u = unchanged q _ _ (omega arith) (omega arith)
Balanced-on_fopen (some e) q (some f) u = rw u (unchanged q _ _ (omega arith) (omega arith))

Balanced-on_mode :
    (fclose : Option Errno) (q : Files) (o : Option Opened) (at_memory : Bool)
    (fopen : Text → Mode → Option ℕ) (path : Text)
    → Uninterrupted fclose
    → Balanced fclose q
        (on_mode o at_memory fopen path (malloc q)).1
        (on_mode o at_memory fopen path (malloc q)).2
unfolding fd_close
Balanced-on_mode fclose q none at_memory fopen path u = refl
Balanced-on_mode fclose q (some at_path) false fopen path u = refl
Balanced-on_mode fclose q (some at_path) true fopen path u =
    unchanged q _ _ (omega arith) (omega arith)
Balanced-on_mode fclose q (some (stream m)) at_memory fopen path u =
    Balanced-on_fopen fclose q (fopen path m) u

-- Where `yo_file_open` of the ansi port has its first block: a handle that it gives, of a file or of a path, is given back by
-- `yo_fd_close` with all that it holds, unless a signal interrupts fclose; and where it gives none, for flags that no mode fits or
-- a file that cannot be opened, it leaves the block.
pub file_open-Balanced :
    (fclose : Option Errno) (at_memory : Bool) (fopen : Text → Mode → Option ℕ) (path : Text)
    (flags : ℕ) (q : Files)
    → Uninterrupted fclose
    → Balanced fclose q
        (file_open true at_memory fopen path flags q).1
        (file_open true at_memory fopen path flags q).2
unfolding file_open
file_open-Balanced fclose at_memory fopen path flags q u =
    Balanced-on_mode fclose q (open_mode flags) at_memory fopen path u
