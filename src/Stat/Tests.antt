-- ===== src/Stat/Tests.antt =====
-- A directory on Linux, and a file on Windows of which only the archive attribute is set.
use libyaooi.Prelude.{◌^◌, ◌<◌, ◌≡◌, some, arith}
use libyaooi.Prelude.Int.{pos}
use libyaooi.Errno.{Code}
use libyaooi.Socket.{done}
use libyaooi.Time.{Time}
use libyaooi.Stat.{Stat, fifo}
use libyaooi.Stat.Unix as Unix
use libyaooi.Stat.Windows.{Info}
use libyaooi.Stat.Formats.{Formatted, conv_stat-Formatted}

abbrev epoch : Time
epoch = record { sec = pos 0; nsec = 0 }

-- 0040755
abbrev directory_stat : Unix.OsStat
directory_stat = record {
  st_mode = 16877;
  st_uid = 0;
  st_gid = 0;
  st_atim = epoch;
  st_ctim = epoch;
  st_mtim = epoch;
  st_size = 4096;
  st_ino = 2;
  st_nlink = 3;
  st_blksize = 512;
}

abbrev old : Stat
old = record {
  type = some fifo;
  mode = 0;
  gid = 0;
  uid = 0;
  atime = epoch;
  mtime = epoch;
  ctime = epoch;
  size = 0;
  blksize = 0;
  inode = 0;
  links = 0;
}

conv_stat-Formatted_example :
    ((Unix.stat (done directory_stat) old).0 ≡ some Code.ok)
    × ((Unix.stat (done directory_stat) old).1.mode < 2 ^ 12)
    × Formatted directory_stat.st_mode
        (Unix.stat (done directory_stat) old).1.type
        (Unix.stat (done directory_stat) old).1.mode
conv_stat-Formatted_example = conv_stat-Formatted directory_stat old (omega arith)

abbrev archived : Info
archived = record {
  attributes = 32;
  creation = 0;
  last_access = 0;
  last_write = 0;
  size_high = 1;
  size_low = 5;
  links = 1;
  index_high = 0;
  index_low = 9;
}
