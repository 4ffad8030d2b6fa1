-- ===== src/Files/Flags.antt =====
-- The values of `yo_open_flags_t`, inc/yaooi/io.h.
use libyaooi.Prelude.{ℕ}

abbrev pub read : ℕ
read = 1

abbrev pub write : ℕ
write = 2

abbrev pub append : ℕ
append = 4

abbrev pub create : ℕ
create = 8

abbrev pub trunc : ℕ
trunc = 16

abbrev pub direct : ℕ
direct = 32

abbrev pub shared : ℕ
shared = 64

abbrev pub nofollow : ℕ
nofollow = 128

abbrev pub stat : ℕ
stat = 128
