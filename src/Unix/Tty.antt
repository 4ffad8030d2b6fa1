-- ===== src/Unix/Tty.antt =====
-- Raw mode of a terminal, `yo_tty_raw` and `yo_tty_rawend` of src/unix/impl.c. A terminal goes by its descriptor; what
-- malloc, tcgetattr and tcsetattr answer are arguments.
pub mod Restored
use libyaooi.Prelude.{ℕ, ◌+◌, ◌-◌, Bool, true, false, Option, none, some, ◌==◌, if◌then◌else◌}
use libyaooi.Errno.{Code}
use libyaooi.Errno.Os.{Errno}
use libyaooi.Errno.Unix.{conv_errno}
use libyaooi.Socket.{Answer, done, fails}

-- `struct termios`: the flags that are changed, and the rest of it. CS8 is the value of the character size whose bits are all
-- set.
pub record Termios : Type 0 where
  pub brkint : Bool
  pub icrnl : Bool
  pub inpck : Bool
  pub istrip : Bool
  pub ixon : Bool
  pub opost : Bool
  pub cs8 : Bool
  pub echo : Bool
  pub icanon : Bool
  pub iexten : Bool
  pub isig : Bool
  pub vmin : ℕ
  pub vtime : ℕ
  pub rest : ℕ

abbrev pub raw_of : Termios → Termios
raw_of t = record t {
  brkint = false;
  icrnl = false;
  inpck = false;
  istrip = false;
  ixon = false;
  opost = false;
  cs8 = true;
  echo = false;
  icanon = false;
  iexten = false;
  isig = false;
  vmin = 1;
  vtime = 0;
}

-- The modes of the terminals, and the blocks that are allocated.
pub record Ttys : Type 0 where
  pub mode : ℕ → Termios
  pub blocks : ℕ

-- `struct yo_tty_raw`
pub record RawMode : Type 0 where
  pub fd : ℕ
  pub previous : Termios

abbrev pub set_mode : ℕ → Termios → Ttys → Ttys
set_mode fd t s = record s { mode = λ g. if g == fd then t else s.mode g }

-- Behind tcgetattr.
abbrev pub on_get : Answer Unit → ℕ → Ttys → Option Code × Option RawMode × Ttys
on_get (fails e) fd s = (conv_errno e, none, record s { blocks = s.blocks + 1 - 1 })
on_get (done _) fd s = (
  some Code.ok,
  some (record { fd = fd; previous = s.mode fd }),
  record (set_mode fd (raw_of (s.mode fd)) s) { blocks = s.blocks + 1 },
)

-- The two calls, of which the first failure ends the rest; a failed tcsetattr changes nothing.
abbrev pub both : Answer Unit → Answer Unit → Answer Unit
both (fails e) set = fails e
both (done _) set = set

unfoldable pub tty_raw :
    (isfd memory : Bool) → (get set : Answer Unit) → ℕ → Ttys → Option Code × Option RawMode × Ttys
tty_raw false memory get set fd s = (some Code.ebadfd, none, s)
tty_raw true false get set fd s = (some Code.enomem, none, s)
tty_raw true true get set fd s = on_get (both get set) fd s

unfoldable pub tty_rawend : Answer Unit → RawMode → Ttys → Option Code × Ttys
tty_rawend (fails e) m s = (conv_errno e, s)
tty_rawend (done _) m s =
    (some Code.ok, record (set_mode m.fd m.previous s) { blocks = s.blocks - 1 })
