-- ===== src/Time.antt =====
-- The time arithmetic of src/time.c (`yo_timeadd`, `yo_timesub`, `yo_timecmp`, `yo_timems`).
pub mod Laws
mod Tests
use libyaooi.Prelude.{ℕ, ◌+◌, ◌-◌, ◌/◌, ◌%◌, ◌^◌, Bool, ltb, ◌==◌, if◌then◌else◌}
use libyaooi.Prelude.Int.{ℤ, pos, negsuc, ◌+ℤ◌, ◌-ℤ◌, ◌*ℤ◌, ltb_ℤ, eqb_ℤ}

-- `yo_time_t`. `sec` is an int64_t; its overflow is undefined in C, so it is an integer here and the
-- theorems speak of sums that fit. `nsec` is a uint32_t, and its arithmetic wraps.
pub record Time : Type 0 where
  pub sec : ℤ
  pub nsec : ℕ

abbrev pub giga : ℕ
giga = 1000000000

-- uint32_t addition and subtraction.
abbrev pub add_u32 : ℕ → ℕ → ℕ
add_u32 a b = (a + b) % 2 ^ 32

abbrev pub sub_u32 : ℕ → ℕ → ℕ
sub_u32 a b = (a + 2 ^ 32 - b) % 2 ^ 32

unfoldable pub timeadd : Time → Time → Time
timeadd a b =
    let res : Time = record { sec = a.sec +ℤ b.sec; nsec = add_u32 a.nsec b.nsec } in
    if ltb giga res.nsec
    then record { sec = res.sec +ℤ pos 1; nsec = sub_u32 res.nsec giga }
    else res

-- The borrow that `yo_timesub` makes on its copy of `a`.
borrow : Time → Time → Time
borrow a b =
    if ltb a.nsec b.nsec then record { sec = a.sec -ℤ pos 1; nsec = add_u32 a.nsec giga } else a

unfoldable pub timesub : Time → Time → Time
unfolding borrow
timesub a b =
    let a' : Time = borrow a b in
    let res : Time = record { sec = a'.sec -ℤ b.sec; nsec = sub_u32 a'.nsec b.nsec } in
    if ltb giga res.nsec
    then record { sec = res.sec +ℤ pos 1; nsec = sub_u32 res.nsec giga }
    else res

unfoldable pub timecmp : Time → Time → ℤ
timecmp a b =
    if eqb_ℤ a.sec b.sec
    then (if a.nsec == b.nsec then pos 0 else if ltb a.nsec b.nsec then negsuc 0 else pos 1)
    else if ltb_ℤ a.sec b.sec
    then negsuc 0
    else pos 1

-- `(time.nsec + 999999) / 1000000` is computed in uint32_t.
unfoldable pub timems : Time → ℤ
timems t = (t.sec *ℤ 1000) +ℤ pos (add_u32 t.nsec 999999 / 1000000)
