-- ===== src/Windows/Cmdline.antt =====
-- The command line that `_yoi_win_argv_to_cmdline` and `_yoi_win_argv_to_cmdline_raw` of src/win/impl.c
-- build. A text is the list of its units without the final NUL; `conv` is `yoi_win_conv_utf8`, where none
-- is a text that has no UTF-16 form, or no memory.
pub mod Reader
pub mod Quoted
pub mod Fits
mod Tests
use libyaooi.Prelude.{
  ℕ, suc, zero, ◌+◌, ◌*◌, Option, none, some, List, [], ◌∷◌, ◌++◌, ◌==◌, if◌then◌else◌, length,
}

abbrev pub Text : Type 0
Text = List ℕ

abbrev pub backslash : ℕ
backslash = b'\\'

abbrev pub quote : ℕ
quote = b'"'

abbrev pub space : ℕ
space = b' '

-- `for (i = 0; i < back_n; i++) *(curr++) = '\\';`
unfoldable pub backslashes : ℕ → Text
backslashes zero = []
backslashes (suc n) = backslash ∷ backslashes n

-- The same loop with two of them in a round.
unfoldable pub doubled : ℕ → Text
doubled zero = []
doubled (suc n) = backslash ∷ backslash ∷ doubled n

-- What one round of the loop over an argument writes, and `back_n` behind it.
unfoldable pub emitted : ℕ → ℕ → Text
emitted back_n c =
    if c == backslash
    then []
    else (if c == quote
        then doubled back_n ++ (backslash ∷ quote ∷ [])
        else backslashes back_n ++ (c ∷ []))

unfoldable pub next_back_n : ℕ → ℕ → ℕ
next_back_n back_n c = if c == backslash then back_n + 1 else 0

-- The loop and the one behind it.
unfoldable pub escaped : ℕ → Text → Text
escaped back_n [] = doubled back_n
escaped back_n (c ∷ cs) = emitted back_n c ++ escaped (next_back_n back_n c) cs

abbrev pub quoted : Text → Text
quoted warg = quote ∷ (escaped 0 warg ++ (quote ∷ []))

-- The units that are written for all arguments with quotation marks, and none where one cannot be converted.
unfoldable pub escaped_line : (Text → Option Text) → List Text → Option Text
escaped_line conv [] = some []
escaped_line conv (arg ∷ args) = elim (conv arg) [
  | none ↦ none
  | some warg ↦ elim (escaped_line conv args) [
    | none ↦ none
    | some rest ↦ elim args [
      | [] ↦ some (quoted warg ++ (0 ∷ []))
      | _ ∷ _ ↦ some (quoted warg ++ (space ∷ rest))
    ]
  ]
]

-- The units that the buffer has room for.
unfoldable pub cmdline_room : List Text → ℕ
cmdline_room [] = 0
cmdline_room (arg ∷ args) = 1 + length arg * 2 + 1 + 1 + cmdline_room args

-- The text behind the first `i` arguments of the raw form; `wcscat` moves the NUL behind it.
unfoldable pub raw_text : (Text → Option Text) → List Text → Option Text
raw_text conv [] = some []
raw_text conv (arg ∷ args) = elim (conv arg) [
  | none ↦ none
  | some warg ↦ elim (raw_text conv args) [
    | none ↦ none
    | some rest ↦ elim args [ [] ↦ some warg | _ ∷ _ ↦ some (warg ++ (space ∷ rest)) ]
  ]
]

unfoldable pub argv_to_cmdline_raw : (Text → Option Text) → List Text → Option Text
argv_to_cmdline_raw conv args = elim (raw_text conv args) [
  | none ↦ none
  | some line ↦ some (line ++ (0 ∷ []))
]

abbrev pub noescape : ℕ
noescape = 0

-- `_yoi_win_argv_to_cmdline`, whose flags are compared and not tested for a bit.
unfoldable pub argv_to_cmdline : (Text → Option Text) → (flags : ℕ) → List Text → Option Text
argv_to_cmdline conv flags args =
    if flags == noescape then argv_to_cmdline_raw conv args else escaped_line conv args

unfoldable pub raw_room : List Text → ℕ
raw_room [] = 0
raw_room (arg ∷ args) = length arg + 1 + raw_room args
