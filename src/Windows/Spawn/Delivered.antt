-- ===== src/Windows/Spawn/Delivered.antt =====
-- What `yo_proc_spawn` of src/win/impl.c gives to CreateProcessW.
use libyaooi.Prelude.{ℕ, ◌≡◌, Option, none, some, true}
use libyaooi.Windows.Spawn.{given, Pipe}

-- The pipe of a stream that is asked for can be made.
abbrev pub Makes : Option Pipe → Type 0
Makes none = Unit
Makes (some s) = (s.memory ≡ true) × (p : ℕ × ℕ) × (s.pipe ≡ given p) × (s.uninherited ≡ given tt)
