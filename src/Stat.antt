-- ===== src/Stat.antt =====
-- What is known of a file: `yo_stat_t` of inc/yaooi/io.h, as `yo_stat` of src/unix/impl.c and of
-- src/win/impl.c make it. The fields of 32 bits take what is converted to them modulo 2^32.
pub mod Unix
pub mod Windows
pub mod Formats
pub mod Attributes
mod Tests
use libyaooi.Prelude.{ℕ, ◌%◌, ◌^◌, Option}
use libyaooi.Time.{Time}

pub data FileType : Type 0 where
  reg dir link sock fifo char blk : FileType

-- A type is none where it is -1.
pub record Stat : Type 0 where
  pub type : Option FileType
  pub mode : ℕ
  pub gid : ℕ
  pub uid : ℕ
  pub atime : Time
  pub mtime : Time
  pub ctime : Time
  pub size : ℕ
  pub blksize : ℕ
  pub inode : ℕ
  pub links : ℕ

abbrev pub u32 : ℕ → ℕ
u32 n = n % 2 ^ 32
