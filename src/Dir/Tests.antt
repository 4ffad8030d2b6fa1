-- ===== src/Dir/Tests.antt =====
-- A directory with the entries ".", "..", "a" and ".b".
use libyaooi.Prelude.{◌≡◌, refl, true, List, [], ◌∷◌, ◌==◌, if◌then◌else◌}
use libyaooi.Dir.{Name}
use libyaooi.Dir.Windows as Windows
use libyaooi.Dir.Listed.{proper}
use libyaooi.Windows.Conversions.{Conversions, given, denied, error_invalid_flags}

abbrev after_dot : List Name
after_dot = (46 ∷ 46 ∷ []) ∷ (97 ∷ []) ∷ (46 ∷ 98 ∷ []) ∷ []

proper-after_dot : proper after_dot ≡ (97 ∷ []) ∷ (46 ∷ 98 ∷ []) ∷ []
proper-after_dot = refl

abbrev plain : Conversions
plain = record {
  multi_byte_to_wide_char = λ flags t. given t;
  wide_char_to_multi_byte = λ flags t. if flags == 8 then denied error_invalid_flags else given t;
  memory = λ n. true;
}
