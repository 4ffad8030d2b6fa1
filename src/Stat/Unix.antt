-- ===== src/Stat/Unix.antt =====
-- `yoi_unix_conv_stat` and `yo_stat` of src/unix/impl.c, as Linux is built.
use libyaooi.Prelude.{ℕ, ◌-◌, ◌*◌, ◌/◌, ◌%◌, Option, none, some, ◌==◌, if◌then◌else◌}
use libyaooi.Errno.{Code}
use libyaooi.Errno.Unix.{conv_errno}
use libyaooi.Socket.{Answer, done, fails}
use libyaooi.Time.{Time}
use libyaooi.Stat.{FileType, reg, dir, link, sock, fifo, char, blk, Stat, u32}

-- The fields of `struct stat` that are read.
pub record OsStat : Type 0 where
  pub st_mode : ℕ
  pub st_uid : ℕ
  pub st_gid : ℕ
  pub st_atim : Time
  pub st_ctim : Time
  pub st_mtim : Time
  pub st_size : ℕ
  pub st_ino : ℕ
  pub st_nlink : ℕ
  pub st_blksize : ℕ

-- The four bits of S_IFMT.
abbrev pub s_ifmt : ℕ
s_ifmt = 4096

abbrev pub format_of : ℕ → ℕ
format_of mode = mode / s_ifmt % 16

-- The cases of the switch: S_IFREG, S_IFDIR, S_IFLNK, S_IFSOCK, S_IFIFO, S_IFCHR and S_IFBLK.
unfoldable pub type_of : (format : ℕ) → Option FileType
type_of format =
    if format == 8
    then some reg
    else if format == 4
    then some dir
    else if format == 10
    then some link
    else if format == 12
    then some sock
    else if format == 1
    then some fifo
    else if format == 2
    then some char
    else if format == 6
    then some blk
    else none

-- `mode & ~S_IFMT`
abbrev pub without_format : ℕ → ℕ
without_format mode = mode - format_of mode * s_ifmt

unfoldable pub conv_stat : OsStat → Stat
conv_stat src = record {
  type = type_of (format_of src.st_mode);
  mode = u32 (without_format src.st_mode);
  gid = u32 src.st_gid;
  uid = u32 src.st_uid;
  atime = src.st_atim;
  mtime = src.st_mtim;
  ctime = src.st_ctim;
  size = src.st_size;
  blksize = u32 src.st_blksize;
  inode = src.st_ino;
  links = u32 src.st_nlink;
}

-- `yo_stat`, with what fstat answers.
unfoldable pub stat : Answer OsStat → Stat → Option Code × Stat
stat (fails e) buff = (conv_errno e, buff)
stat (done res) buff = (some Code.ok, conv_stat res)
