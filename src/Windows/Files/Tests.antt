-- ===== src/Windows/Files/Tests.antt =====
-- A file to append to, and one that is removed.
use libyaooi.Prelude.{refl}
use libyaooi.Files.Flags
use libyaooi.Windows.Files.Removed.{Entry, entries, FileSystem}

abbrev single : FileSystem
single = record {
  State = Entry;
  deletion = entries;
  at = λ path e. e;
  deletes = λ path e. refl;
  removes = λ path e. refl;
}
