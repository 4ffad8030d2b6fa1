-- ===== src/Ansi/Open/Tests.antt =====
-- A file that is to be appended to, for a child too.
use libyaooi.Prelude.{◌≡◌, refl, none}
use libyaooi.Ansi.Open.{ab, open_mode, mode_of}
use libyaooi.Ansi.Open.Modes.{Agrees, open_mode-Agrees}

-- YO_OPEN_WRITE alone is not supported.
open_mode-write : open_mode 2 ≡ none
unfolding open_mode mode_of
open_mode-write = refl

open_mode-Agrees_example : Agrees ab 76
unfolding open_mode mode_of
open_mode-Agrees_example = open_mode-Agrees 76 ab refl
