-- ===== src/Files/Tests.antt =====
-- Flags that are converted.
use libyaooi.Prelude.{◌≡◌, refl}
use libyaooi.Files.{Access, conv_open_flags}

-- YO_OPEN_READ, YO_OPEN_WRITE and YO_OPEN_NOFOLLOW: not to be written.
unwritable : (conv_open_flags 131).access ≡ Access.rdonly
unfolding conv_open_flags
unwritable = refl

appended : (conv_open_flags 5).access ≡ Access.rdwr
unfolding conv_open_flags
appended = refl
