-- ===== src/Dir/Listed.antt =====
-- What a caller sees that asks a directory for names until it gets none.
use libyaooi.Prelude.{
  Bool, ◌&&◌, ◌||◌, ◌==◌, ℕ, suc, zero, true, false, Option, none, some, List, [], ◌∷◌,
  if◌then◌else◌,
}
use libyaooi.Errno.{Code}
use libyaooi.Dir.{Name, Stream, Next, name, at_end, fails}
use libyaooi.Windows.Conversions.{Conversions}
use libyaooi.Dir.Windows as Windows

-- The names that at most `k` calls give, and the result that is not a name.
module _ {S : Type 0} where
  abbrev pub continue : Next × S → (S → List Name × Option Next) → List Name × Option Next
  continue (name n, s) more = let (names, last) = more s in (n ∷ names, last)
  continue (at_end, s) more = ([], some at_end)
  continue (fails c, s) more = ([], some (fails c))

  abbrev pub listing : (S → Next × S) → ℕ → S → List Name × Option Next
  listing next zero s = ([], none)
  listing next (suc k) s = continue (next s) (listing next k)

abbrev same : Name → Name → Bool
same [] [] = true
same (x ∷ xs) (y ∷ ys) = (x == y) && same xs ys
same _ _ = false

-- The names "." and "..".
abbrev is_dots : Name → Bool
is_dots n = same n (46 ∷ []) || same n (46 ∷ 46 ∷ [])

-- The entries but "." and "..".
abbrev pub proper : List Name → List Name
proper [] = []
proper (n ∷ ns) = if is_dots n then proper ns else n ∷ proper ns

abbrev pub stream : List Name → Option Code → Stream
stream ns end = record { entries = ns; end = end }
