-- ===== src/Windows/Errno/Sockets.antt =====
-- The errors of Windows sockets against the POSIX errors of the same name.
use mathlib.Core.Path.{subst}
use libyaooi.Prelude.{◌≡◌, refl, ◌⊎◌, inl, inr, Option, none, some}
use libyaooi.Errno.Os.{Errno}
use libyaooi.Errno.Unix as Unix
use libyaooi.Windows.Errors.{WinError}
use libyaooi.Windows.Errno.{conv_errno}

-- The POSIX error whose name, with WSA in front, is the error's.
abbrev pub posix : WinError → Option Errno
posix WinError.wsaeacces = some Errno.eacces
posix WinError.wsaeaddrinuse = some Errno.eaddrinuse
posix WinError.wsaeaddrnotavail = some Errno.eaddrnotavail
posix WinError.wsaeafnosupport = some Errno.eafnosupport
posix WinError.wsaealready = some Errno.ealready
posix WinError.wsaeconnaborted = some Errno.econnaborted
posix WinError.wsaeconnrefused = some Errno.econnrefused
posix WinError.wsaeconnreset = some Errno.econnreset
posix WinError.wsaefault = some Errno.efault
posix WinError.wsaehostunreach = some Errno.ehostunreach
posix WinError.wsaeintr = some Errno.eintr
posix WinError.wsaeinval = some Errno.einval
posix WinError.wsaeisconn = some Errno.eisconn
posix WinError.wsaemfile = some Errno.emfile
posix WinError.wsaemsgsize = some Errno.emsgsize
posix WinError.wsaenetunreach = some Errno.enetunreach
posix WinError.wsaenobufs = some Errno.enobufs
posix WinError.wsaenotconn = some Errno.enotconn
posix WinError.wsaenotsock = some Errno.enotsock
posix WinError.wsaepfnosupport = some Errno.epfnosupport
posix WinError.wsaeprotonosupport = some Errno.eprotonosupport
posix WinError.wsaeshutdown = some Errno.eshutdown
posix WinError.wsaesocktnosupport = some Errno.esocktnosupport
posix WinError.wsaetimedout = some Errno.etimedout
posix _ = none

abbrev Agrees : WinError → Option Errno → Type 0
Agrees w none = Unit
Agrees w (some e) =
    (conv_errno w ≡ Unix.conv_errno e) ⊎ (w ≡ WinError.wsaeisconn) ⊎ (w ≡ WinError.wsaenotconn)

agrees : (w : WinError) → Agrees w (posix w)
unfolding conv_errno Unix.conv_errno
agrees WinError.wsaeacces = inl refl
agrees WinError.wsaeaddrinuse = inl refl
agrees WinError.wsaeaddrnotavail = inl refl
agrees WinError.wsaeafnosupport = inl refl
agrees WinError.wsaealready = inl refl
agrees WinError.wsaeconnaborted = inl refl
agrees WinError.wsaeconnrefused = inl refl
agrees WinError.wsaeconnreset = inl refl
agrees WinError.wsaefault = inl refl
agrees WinError.wsaehostunreach = inl refl
agrees WinError.wsaeintr = inl refl
agrees WinError.wsaeinval = inl refl
agrees WinError.wsaeisconn = inr (inl refl)
agrees WinError.wsaemfile = inl refl
agrees WinError.wsaemsgsize = inl refl
agrees WinError.wsaenetunreach = inl refl
agrees WinError.wsaenobufs = inl refl
agrees WinError.wsaenotconn = inr (inr refl)
agrees WinError.wsaenotsock = inl refl
agrees WinError.wsaepfnosupport = inl refl
agrees WinError.wsaeprotonosupport = inl refl
agrees WinError.wsaeshutdown = inl refl
agrees WinError.wsaesocktnosupport = inl refl
agrees WinError.wsaetimedout = inl refl
agrees _ = tt

-- `yoi_win_conv_errno` makes of a socket error what `yoi_unix_conv_errno` makes of the POSIX error of the same name, or
-- the error is WSAEISCONN or WSAENOTCONN.
pub conv_errno-posix :
    (w : WinError) (e : Errno)
    → posix w ≡ some e
    → (conv_errno w ≡ Unix.conv_errno e) ⊎ (w ≡ WinError.wsaeisconn) ⊎ (w ≡ WinError.wsaenotconn)
conv_errno-posix w e h = subst (Agrees w) h (agrees w)
