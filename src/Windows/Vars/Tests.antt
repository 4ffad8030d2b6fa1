-- ===== src/Windows/Vars/Tests.antt =====
-- An environment in which every variable has the same value.
use libyaooi.Prelude.{◌+◌, true, Option, none, some, [], ◌∷◌, length, ◌==◌, if◌then◌else◌}
use libyaooi.Windows.Cmdline.{Text}
use libyaooi.Windows.Errors.{WinError}
use libyaooi.Windows.Conversions.{Conversions, given, denied, error_invalid_flags}
use libyaooi.Windows.Vars.{Query, units, not_found, Read, Variables}

abbrev query_of : Option Text → Query
query_of none = not_found
query_of (some t) = units (length t + 1)

abbrev read_of : Option Text → Read
read_of none = record { count = 0; stored = []; error = WinError.error_file_not_found }
read_of (some t) = record { count = length t; stored = t; error = WinError.error_file_not_found }

abbrev one_value : Variables (Option Text)
one_value = record {
  query = λ w env. query_of env;
  read = λ w n env. read_of env;
  write = λ w t env. (given tt, some t);
}

abbrev lookup : Text → Option Text → Option Text
lookup w env = env

abbrev plain : Conversions
plain = record {
  multi_byte_to_wide_char = λ flags t. given t;
  wide_char_to_multi_byte = λ flags t. if flags == 8 then denied error_invalid_flags else given t;
  memory = λ n. true;
}

abbrev name : Text
name = 88 ∷ []

abbrev value : Text
value = 49 ∷ 50 ∷ []
