-- ===== src/Paths/Tests.antt =====
-- A user whose home is "/u", without variables, on a system with memory.
use libyaooi.Prelude.{
  ℕ, ◌+◌, ◌^◌, ◌≡◌, refl, false, ◌⊎◌, none, [], ◌∷◌, ltb, if◌then◌else◌, length, ltb→lt,
}
use libyaooi.Errno.Os.{Errno}
use libyaooi.Paths.{Text, path_home, path_cache, System, Try, fits, lacks, writes_null, getpath}
use libyaooi.Paths.Found.{Gives, room_for, path_of, getpath-Gives}

abbrev home : Text
home = 47 ∷ 117 ∷ []

abbrev root : Text
root = 47 ∷ []

abbrev stored : Text → ℕ → Try
stored t room = if ltb (length t) room then fits t else lacks Errno.erange

abbrev system : System
system = record {
  memory = λ n. ltb n (2 ^ 63);
  getenv = λ v. none;
  passwd = stored home;
  cwd = stored root;
}

getpath-Gives_example :
    Gives system.memory
      (room_for system home root path_cache)
      (path_of system home root path_cache)
      (getpath system path_cache)
    ⊎ ((path_cache ≡ path_home)
        × (system.memory (length home + 1) ≡ false)
        × (getpath system path_cache ≡ writes_null))
getpath-Gives_example =
    getpath-Gives system home root path_cache (λ n e. ltb→lt n (2 ^ 63) e) refl (λ room. refl)
