-- ===== src/Windows/Cmdline/Tests.antt =====
-- Arguments with spaces, backslashes and quotation marks.
use libyaooi.Prelude.{ℕ, ◌≡◌, ◌≤◌, refl, Option, some, List, [], ◌∷◌, arith}
use libyaooi.Windows.Cmdline.{
  Text, argv_to_cmdline, emitted, next_back_n, escaped, doubled, backslashes,
}
use libyaooi.Windows.Cmdline.Reader.{program_arguments}
use libyaooi.Windows.Cmdline.Quoted.{program_arguments-argv_to_cmdline}
use libyaooi.Windows.Cmdline.Fits.{Fits}

-- A program `x y`, with the arguments `a b`, `\"` and the empty text
abbrev program_name : Text
program_name = 120 ∷ 32 ∷ 121 ∷ []

abbrev spoken : List Text
spoken = (97 ∷ 32 ∷ 98 ∷ []) ∷ (92 ∷ 34 ∷ []) ∷ [] ∷ []

abbrev ascii : Text → Option Text
ascii t = some t

program_arguments-argv_to_cmdline_example :
    (written : Text) × (argv_to_cmdline ascii 1 (program_name ∷ spoken) ≡ some written)
    × (program_arguments written ≡ program_name ∷ spoken)
program_arguments-argv_to_cmdline_example =
    program_arguments-argv_to_cmdline ascii 1 (program_name ∷ spoken) program_name spoken
      (omega arith) (refl, (refl, (refl, (refl, tt))))
      ((ground arith, (ground arith, (ground arith, tt))), ground arith) (omega arith)

ascii-Fits : (t : Text) → Fits (ascii t) (libyaooi.Prelude.length t)
ascii-Fits t u e = ground arith

-- A backslash before a quotation mark is doubled, and the mark gets one of its own.
escaped_mark : escaped 0 (92 ∷ 34 ∷ []) ≡ 92 ∷ 92 ∷ 92 ∷ 34 ∷ []
unfolding escaped emitted next_back_n doubled backslashes
escaped_mark = refl
