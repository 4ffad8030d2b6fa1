-- ===== src/Windows/Spawn/Tests.antt =====
-- A program with two arguments, one variable and a pipe for its output.
use libyaooi.Prelude.{none, some, [], ◌∷◌, true}
use libyaooi.Windows.Conversions.{Conversions}
use libyaooi.Windows.Errors.{WinError}
use libyaooi.Windows.Spawn.{given, denied, Command, World, proc_spawn}
use libyaooi.Windows.Spawn.Held.{left, untouched, Balanced, proc_spawn-Balanced}

abbrev plain : Conversions
plain = record {
  multi_byte_to_wide_char = λ flags t. given t;
  wide_char_to_multi_byte = λ flags t. given t;
  memory = λ n. true;
}

abbrev program : Command
program = record {
  flags = 1;
  argv = (97 ∷ []) ∷ (98 ∷ 32 ∷ []) ∷ [];
  envp = some ((65 ∷ 61 ∷ []) ∷ []);
  cwd = none;
}

abbrev world : World
world = record {
  pin = none;
  pout = some (record { memory = true; pipe = given (5, 6); uninherited = given tt });
  perr = none;
  texts = plain;
  line_memory = true;
  conv_error = WinError.error_outofmemory;
  create = λ a. given (7, 8);
}

-- CreateProcessW fails.
abbrev refusing : World
refusing = record world { create = λ a. denied WinError.error_access_denied }

proc_spawn-Balanced_example :
    Balanced 5
      (left refusing program)
      (proc_spawn refusing program (untouched WinError.error_outofmemory))
proc_spawn-Balanced_example = proc_spawn-Balanced refusing program WinError.error_outofmemory 5
