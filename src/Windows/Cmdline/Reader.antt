-- ===== src/Windows/Cmdline/Reader.antt =====
-- How a Windows program reads its command line, as the C runtime documents it: an even number of
-- backslashes before a quotation mark stands for half of them, and the mark opens or closes a quoted
-- part; an odd number stands for half of them and the mark itself; other backslashes stand for
-- themselves; a space outside the quoted parts ends an argument. The first argument has a rule of its own.
use libyaooi.Prelude.{
  ℕ, ◌+◌, ◌/◌, ◌%◌, ◌≢◌, All, Bool, true, false, not, ◌&&◌, List, [], ◌∷◌, ◌++◌, ◌==◌,
  if◌then◌else◌,
}
use libyaooi.Windows.Cmdline.{Text, backslash, quote, space, backslashes}

-- `begun` says whether an argument has begun, `inside` whether a quoted part is open, and `held` how many
-- backslashes were read last.
pub record Reading : Type 0 where
  pub begun : Bool
  pub inside : Bool
  pub held : ℕ
  pub arg : Text

abbrev pub between : Reading
between = record { begun = false; inside = false; held = 0; arg = [] }

abbrev pub within : Bool → ℕ → Text → Reading
within inside held arg = record { begun = true; inside = inside; held = held; arg = arg }

abbrev pub at_quote : Reading → Reading
at_quote r =
    if r.held % 2 == 0
    then within (not r.inside) 0 (r.arg ++ backslashes (r.held / 2))
    else within r.inside 0 (r.arg ++ (backslashes (r.held / 2) ++ (quote ∷ [])))

abbrev pub at_unit : Reading → ℕ → Reading
at_unit r c =
    if c == backslash
    then within r.inside (r.held + 1) r.arg
    else (if c == quote
        then at_quote r
        else within r.inside 0 (r.arg ++ (backslashes r.held ++ (c ∷ []))))

abbrev pub ended : Reading → List Text
ended r = if r.begun then (r.arg ++ backslashes r.held) ∷ [] else []

-- The arguments that the units spell, up to a NUL.
unfoldable pub arguments : Reading → Text → List Text
arguments r [] = ended r
arguments r (c ∷ cs) =
    let here = arguments (if (c == space) && not r.inside then between else at_unit r c) cs in
    if c == 0 then ended r else (if (c == space) && not r.inside then ended r ++ here else here)

-- The units before a quotation mark, and those behind it.
unfoldable pub split_quote : Text → Text × Text
split_quote [] = ([], [])
split_quote (c ∷ cs) =
    let (before, behind) = split_quote cs in if c == quote then ([], cs) else (c ∷ before, behind)

-- The first argument is the name of the program, in which backslashes mean nothing: where it begins with a quotation mark it ends with the
-- next one. A name without the mark is not looked at here.
unfoldable pub program_arguments : Text → List Text
program_arguments [] = []
program_arguments (c ∷ cs) = let (name, rest) = split_quote cs in name ∷ arguments between rest

abbrev pub NotQuote : ℕ → Type 0
NotQuote c = c ≢ quote

abbrev pub EndsPlain : Text → Type 0
EndsPlain [] = Unit
EndsPlain (c ∷ []) = c ≢ backslash
EndsPlain (c ∷ d ∷ cs) = EndsPlain (d ∷ cs)

-- A name that has no quotation mark and does not end in a backslash.
abbrev pub IsProgram : Text → Type 0
IsProgram t = All NotQuote t × EndsPlain t
