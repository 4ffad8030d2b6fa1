-- ===== src/Windows/Errno/Tests.antt =====
-- A socket error and its POSIX namesake.
use libyaooi.Prelude.{◌≡◌, refl, some}
use libyaooi.Errno.{Code}
use libyaooi.Errno.Os.{Errno}
use libyaooi.Errno.Unix as Unix
use libyaooi.Windows.Errors.{WinError}
use libyaooi.Windows.Errno.{conv_errno}

-- WSAENOTCONN, and its namesake.
not_connected : conv_errno WinError.wsaenotconn ≡ some Code.enetdown
unfolding conv_errno
not_connected = refl

not_connected_posix : Unix.conv_errno Errno.enotconn ≡ some Code.ebadop
unfolding Unix.conv_errno
not_connected_posix = refl
