-- ===== src/Socket/Tests.antt =====
-- A socket that is bound, one whose port is taken, and one whose connection is refused.
use libyaooi.Prelude.{◌≡◌, refl, true, [], ◌∷◌}
use libyaooi.Errno.Os.{Errno}
use libyaooi.Socket.{Process, Answer, done, fails, socket_bind}

abbrev fresh : Process
fresh = record { fds = 0 ∷ 1 ∷ []; blocks = 0; errno = Errno.success }

abbrev well : Answer Unit
well = done tt

abbrev port_taken : Answer Unit
port_taken = fails Errno.eaddrinuse

abbrev refused : Answer Unit
refused = fails Errno.econnrefused

port_released : (socket_bind true (done 3) well port_taken well fresh).process.fds ≡ 0 ∷ 1 ∷ []
unfolding socket_bind
port_released = refl
