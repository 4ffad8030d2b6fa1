-- ===== src/Errno/Tests.antt =====
-- Runs of the tables of result codes, and their theorems at concrete codes.
use libyaooi.Prelude.{◌≡◌, refl}
use libyaooi.Prelude.Int.{negsuc}
use libyaooi.Errno.{strerr}

no_such_code : strerr (negsuc 28) ≡ "unknown OS-specific error"
unfolding strerr
no_such_code = refl
