-- ===== src/Windows/Sockets/Tests.antt =====
-- A port that is taken, and a connection that is not accepted.
use libyaooi.Prelude.{ℕ, true, [], ◌∷◌}
use libyaooi.Windows.Errors.{WinError}
use libyaooi.Windows.Spawn.{Attempt, given, denied, Handles}
use libyaooi.Windows.Files.{file_open}
use libyaooi.Windows.Sockets.{socket_connect, socket_bind}
use libyaooi.Windows.Sockets.Held.{Held, file_open-Held}

abbrev begun : Handles
begun = record { opened = 3 ∷ []; closed = []; blocks = 1; error = WinError.error_busy }

abbrev taken : Attempt Unit
taken = denied WinError.wsaeaddrinuse

abbrev refused : Attempt ℕ
refused = denied WinError.wsaeconnaborted

file_open-Held_example :
    Held 4 begun (socket_connect true (given 4) taken begun)
    × Held 4 begun (socket_bind true (given 4) (given tt) taken (given tt) begun)
    × Held 4 begun (file_open true (given (97 ∷ [])) (λ path f. given 4) 3 begun)
file_open-Held_example =
    file_open-Held 4 begun true (given 4) taken (given tt) taken (given tt) (given (97 ∷ []))
      (λ path f. given 4) 3
