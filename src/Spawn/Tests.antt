-- ===== src/Spawn/Tests.antt =====
-- A program that cannot be executed, with a pipe for its output.
use libyaooi.Prelude.{◌≡◌, refl, Option, none, some, true, false}
use libyaooi.Errno.Os.{Errno}
use libyaooi.Socket.{done, fails}
use libyaooi.Spawn.{Answers, Stream, proc_spawn, code}
use libyaooi.Spawn.Child.{ChildAnswers, first_failure}
use libyaooi.Spawn.Held.{begun, Settled, proc_spawn-Settled}
use libyaooi.Spawn.Reports.{no_program, told, answered, proc_spawn-child}

abbrev piped : Option Stream
piped = some (record { memory = true; pipe = done (5, 6) })

abbrev missing : ChildAnswers
missing = record {
  has_in = false;
  has_out = true;
  has_err = false;
  has_cwd = false;
  dup_in = done tt;
  dup_out = done tt;
  dup_err = done tt;
  chdir = done tt;
  setmask = done tt;
  exec = fails Errno.enoent;
}

abbrev answers : Answers
answers = record {
  pipe = done (3, 4);
  cloexec_read = done tt;
  cloexec_write = done tt;
  nonblock = done tt;
  pin = none;
  pout = piped;
  perr = none;
  fork = done 77;
  status = code Errno.enoent;
  waited = done tt;
}

proc_spawn-Settled_example : Settled 5 answers (proc_spawn answers (begun Errno.eio))
proc_spawn-Settled_example = proc_spawn-Settled answers Errno.eio 5

proc_spawn-child_example :
    answered (proc_spawn answers (begun Errno.eio)) ≡ told (some Errno.enoent) 77
unfolding first_failure
proc_spawn-child_example =
    proc_spawn-child answers 77 missing (some Errno.enoent) (begun Errno.eio)
      (((3, 4), refl), refl, refl, refl, tt, (refl, ((5, 6), refl)), tt, refl, refl) refl
      (no_program Errno.enoent tt refl tt tt refl refl)
