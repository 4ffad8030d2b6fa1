-- ===== src/Ansi/Clock.antt =====
-- The clocks, `yo_timesleep` and the signals of src/ansi/impl.c. What time and clock answer, and CLOCKS_PER_SEC, are arguments.
pub mod Slept
use libyaooi.Prelude.{
  ℕ, suc, ◌+◌, ◌-◌, ◌*◌, ◌/◌, ◌%◌, Bool, true, false, Option, none, some, List, [], ◌∷◌,
  if◌then◌else◌, ltb,
}
use libyaooi.Prelude.Int.{ℤ, pos, negsuc}
use libyaooi.Errno.{Code}
use libyaooi.Signal.Names.{Signo}
use libyaooi.Time.{Time}

pub data Clock : Type 0 where
  real cpu mono : Clock

-- `yo_time`
abbrev pub ticks : (clocks_per_sec now : ℕ) → Time
ticks cps now = record { sec = pos (now / cps); nsec = now % cps * 1000 }

abbrev pub time : (clocks_per_sec seconds now : ℕ) → Clock → Time
time cps seconds now real = record { sec = pos seconds; nsec = 0 }
time cps seconds now cpu = ticks cps now
time cps seconds now mono = ticks cps now

-- The tick that `yo_timesleep` waits for; a tick that is negative is before every reading, as 0 is.
abbrev pub end_at : (clocks_per_sec : ℕ) → (sec : ℤ) → (nsec : ℕ) → ℕ
end_at cps (pos s) nsec = s * cps + nsec / 1000
end_at cps (negsuc s) nsec = nsec / 1000 - suc s * cps

abbrev pub end_of : (clocks_per_sec : ℕ) → Time → ℕ
end_of cps t = end_at cps t.sec t.nsec

-- The loop, over the readings of the clock; none where they are used up.
unfoldable pub spin : (end : ℕ) → List ℕ → Option ℕ
spin end [] = none
spin end (now ∷ readings) = let rest = spin end readings in if ltb now end then rest else some now

abbrev pub timesleep : (clocks_per_sec : ℕ) → Time → List ℕ → Option ℕ
timesleep cps t readings = spin (end_of cps t) readings

-- SIG_IGN and SIG_DFL, for the signals of the C standard.
pub data Disposition : Type 0 where
  sig_ign sig_dfl : Disposition

pub record Dispositions : Type 0 where
  pub sigint : Disposition
  pub sigabrt : Disposition
  pub sigterm : Disposition
  pub sigsegv : Disposition
  pub sigill : Disposition

abbrev pub dispose : Disposition → Signo → Dispositions → Dispositions
dispose d Signo.int s = record s { sigint = d }
dispose d Signo.abrt s = record s { sigabrt = d }
dispose d Signo.term s = record s { sigterm = d }
dispose d Signo.badmem s = record s { sigsegv = d }
dispose d Signo.badop s = record s { sigill = d }
dispose d sig s = s

abbrev pub sig_on : Signo → Dispositions → Code × Dispositions
sig_on sig s = (Code.ok, dispose sig_ign sig s)

abbrev pub sig_off : Signo → Dispositions → Code × Dispositions
sig_off sig s = (Code.ok, dispose sig_dfl sig s)
