-- ===== src/Dir/Windows.antt =====
-- `yo_dir_open` and `yo_dir_next` of src/win/impl.c, on the stream that FindFirstFileW and FindNextFileW give.
use libyaooi.Prelude.{Bool, true, false, Option, none, some, List, [], ◌∷◌, if◌then◌else◌}
use libyaooi.Errno.{Code}
use libyaooi.Windows.Cmdline.{Text}
use libyaooi.Windows.Conversions.{Attempt, given, denied, Conversions, conv_utf16}
use libyaooi.Dir.{Name, Stream, Next, name, at_end, fails, is_synthetic}

-- `struct yo_dir`: the entry that is kept (`data`), and the rest of the stream.
pub record Handle : Type 0 where
  pub current : Name
  pub done : Bool
  pub rest : Stream

-- `yo_dir_open` where FindFirstFileW gives an entry and there is memory.
abbrev pub dir_open : Name → Stream → Handle
dir_open first s = record { current = first; done = false; rest = s }

-- What the conversion of a name stores; where it fails, this is NULL with YO_OK, as at the end.
abbrev pub converted : Attempt Text → Next
converted (given n) = name n
converted (denied e) = at_end

abbrev pub kept : Name → Bool → List Name → Option Code → Handle
kept n done ns end = record { current = n; done = done; rest = record { entries = ns; end = end } }

-- The loop, where `done` is not set.
unfoldable pub next_from : Conversions → Name → List Name → Option Code → Next × Handle
next_from c n [] none =
    (if is_synthetic n then at_end else converted (conv_utf16 c n), kept n true [] none)
next_from c n [] (some e) = (fails e, kept n false [] (some e))
next_from c n (n1 ∷ ns) end =
    let later = next_from c n1 ns end in
    if is_synthetic n then later else (converted (conv_utf16 c n), kept n1 false ns end)

unfoldable pub dir_next : Conversions → Handle → Next × Handle
dir_next c h = if h.done then (at_end, h) else next_from c h.current h.rest.entries h.rest.end
