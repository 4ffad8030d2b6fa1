-- ===== src/Stat/Windows.antt =====
-- `yo_stat` of src/win/impl.c.
use libyaooi.Prelude.{ℕ, ◌+◌, ◌*◌, ◌^◌, Bool, true, false, Option, some, if◌then◌else◌}
use libyaooi.Errno.{Code}
use libyaooi.Files.{flag}
use libyaooi.Windows.Clock.{conv_filetime}
use libyaooi.Windows.Errno.{conv_errno}
use libyaooi.Windows.Spawn.{Attempt, given, denied}
use libyaooi.Stat.{FileType, reg, dir, link, blk, Stat}

-- BY_HANDLE_FILE_INFORMATION, with its times in ticks.
pub record Info : Type 0 where
  pub attributes : ℕ
  pub creation : ℕ
  pub last_access : ℕ
  pub last_write : ℕ
  pub size_high : ℕ
  pub size_low : ℕ
  pub links : ℕ
  pub index_high : ℕ
  pub index_low : ℕ

-- FILE_ATTRIBUTE_READONLY, _DIRECTORY, _DEVICE, _NORMAL and _REPARSE_POINT.
abbrev pub readonly : ℕ
readonly = 1

abbrev pub directory : ℕ
directory = 16

abbrev pub device : ℕ
device = 64

abbrev pub normal : ℕ
normal = 128

abbrev pub reparse_point : ℕ
reparse_point = 1024

-- `COMBINE64`
abbrev pub combine64 : (low high : ℕ) → ℕ
combine64 low high = high * 2 ^ 32 + low

-- 0555 and 0777
abbrev pub mode_of : ℕ → ℕ
mode_of attributes = if flag readonly attributes then 365 else 511

-- The type and the mode; without any of the attributes, the type of the buffer stays.
unfoldable pub type_and_mode : ℕ → Option FileType → Option FileType × ℕ
type_and_mode attributes old =
    if flag normal attributes
    then (some reg, mode_of attributes)
    else if flag directory attributes
    then (some dir, mode_of attributes)
    else if flag device attributes
    then (some blk, mode_of attributes)
    else if flag reparse_point attributes
    then (some link, 511)
    else (old, mode_of attributes)

unfoldable pub filled : Info → Stat → Stat
filled info buff =
    let (type, mode) = type_and_mode info.attributes buff.type in
    record {
      type = type;
      mode = mode;
      gid = 1000;
      uid = 1000;
      atime = conv_filetime info.last_access;
      mtime = conv_filetime info.last_write;
      ctime = conv_filetime info.creation;
      size = combine64 info.size_low info.size_high;
      blksize = 4096;
      inode = combine64 info.index_low info.index_high;
      links = info.links;
    }

-- `yo_stat`, with what GetFileInformationByHandle answers.
unfoldable pub stat : (is_hnd : Bool) → Attempt Info → Stat → Option Code × Stat
stat false info buff = (some Code.ebadfd, buff)
stat true (denied e) buff = (conv_errno e, buff)
stat true (given info) buff = (some Code.ok, filled info buff)
