-- ===== src/Dir.antt =====
-- `yo_dir_next` of src/unix/impl.c on a stream of entries that the system gives. A name is the list of its
-- characters.
pub mod Windows
pub mod Listed
mod Tests
use libyaooi.Prelude.{
  ℕ, suc, Bool, true, false, ◌&&◌, ◌||◌, Option, none, some, List, [], ◌∷◌, ◌==◌, if◌then◌else◌,
}
use libyaooi.Errno.{Code}

abbrev pub Name : Type 0
Name = List ℕ

abbrev dot : ℕ
dot = b'.'

-- `!strcmp(name, ".") || !strcmp(name, "..")`
abbrev pub is_synthetic : Name → Bool
is_synthetic (a ∷ []) = a == dot
is_synthetic (a ∷ b ∷ []) = (a == dot) && (b == dot)
is_synthetic _ = false

-- What is left of a directory: its entries, and behind them the end, or a failure with its code, which the
-- system gives again when it is asked again.
pub record Stream : Type 0 where
  pub entries : List Name
  pub end : Option Code

-- The result of `yo_dir_next`: a name, NULL with YO_OK at the end, or a code.
pub data Next : Type 0 where
  name : Name → Next
  at_end : Next
  fails : Code → Next

-- The name where there is memory for its copy.
abbrev pub copied : Bool → Name → Next
copied true n = name n
copied false n = fails Code.enomem

abbrev pub ended : Option Code → Next
ended none = at_end
ended (some c) = fails c

-- The loop over `readdir`.
unfoldable pub next_of : (memory : Bool) → List Name → Option Code → Next × List Name
next_of memory [] end = (ended end, [])
next_of memory (n ∷ ns) end =
    let later = next_of memory ns end in if is_synthetic n then later else (copied memory n, ns)

unfoldable pub dir_next : (memory : Bool) → Stream → Next × Stream
dir_next memory s =
    let (result, rest) = next_of memory s.entries s.end in (result, record s { entries = rest })
