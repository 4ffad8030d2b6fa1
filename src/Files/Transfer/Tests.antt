-- ===== src/Files/Transfer/Tests.antt =====
-- A read across the end of a file of five bytes, and reads at the end of a stream.
use libyaooi.Prelude.{ℕ, ◌≡◌, refl, true, some}
use libyaooi.Errno.{Code}
use libyaooi.Socket.{done}
use libyaooi.Windows.Spawn.{given}
use libyaooi.Files.Transfer.{moved, unmoved, unix_transfer, hnd, win_transfer}

abbrev four : ℕ
four = 4

-- At the end of a stream, the unix port returns YO_EOF and the Windows port YO_OK.
unix_end : unix_transfer true 4 (done 0) ≡ unmoved (some Code.eof) 4
unfolding unix_transfer
unix_end = refl

win_end : win_transfer hnd 4 (λ k. given 0) ≡ moved 0
unfolding win_transfer
win_end = refl
