-- ===== src/Errno.antt =====
-- The result codes of inc/yaooi/errno.h and `yo_strerr` of src/yaooi.c.
pub mod Os
pub mod Unix
pub mod Ansi
pub mod Laws
mod Tests
use Prim.Native.String.{String}
use libyaooi.Prelude.{Bool, List, [], ◌∷◌, if◌then◌else◌}
use libyaooi.Prelude.Int.{ℤ, pos, negsuc, eqb_ℤ}

-- `yo_code_t`, the names of the table `YO_SIGDEF`.
pub data Code : Type 0 where
  ok eio ecanceled etimeout eof eperm ebusy eagain enotsup enotimpl enoent enodev eexist : Code
  enotfile enotdir enotblk enottty enotsock enotempty eisdir einval ebadfd ebadop exdev erange :
      Code
  efault ebadexe eutf ealready enoresource eloop efbig erofs enomem eproto eremoteio eaddrinuse :
      Code
  eaddrnotavail enetdown econnaborted econnreset econnrefused ehostdown enomedium eunknown : Code

-- The values of the table.
unfoldable pub code_value : Code → ℤ
code_value ok = pos 0
code_value eio = negsuc 0
code_value ecanceled = negsuc 1
code_value etimeout = negsuc 2
code_value eof = negsuc 3
code_value eperm = negsuc 4
code_value ebusy = negsuc 5
code_value eagain = negsuc 6
code_value enotsup = negsuc 7
code_value enotimpl = negsuc 8
code_value enoent = negsuc 9
code_value enodev = negsuc 10
code_value eexist = negsuc 11
code_value enotfile = negsuc 12
code_value enotdir = negsuc 13
code_value enotblk = negsuc 14
code_value enottty = negsuc 15
code_value enotsock = negsuc 16
code_value enotempty = negsuc 17
code_value eisdir = negsuc 18
code_value einval = negsuc 19
code_value ebadfd = negsuc 20
code_value ebadop = negsuc 21
code_value exdev = negsuc 22
code_value erange = negsuc 23
code_value efault = negsuc 24
code_value ebadexe = negsuc 25
code_value eutf = negsuc 26
code_value ealready = negsuc 27
code_value enoresource = negsuc 29
code_value eloop = negsuc 30
code_value efbig = negsuc 31
code_value erofs = negsuc 32
code_value enomem = negsuc 33
code_value eproto = negsuc 99
code_value eremoteio = negsuc 100
code_value eaddrinuse = negsuc 102
code_value eaddrnotavail = negsuc 103
code_value enetdown = negsuc 104
code_value econnaborted = negsuc 105
code_value econnreset = negsuc 106
code_value econnrefused = negsuc 107
code_value ehostdown = negsuc 108
code_value enomedium = negsuc 109
code_value eunknown = negsuc 9999

-- The messages of the table.
unfoldable pub message : Code → String
message ok = "no error occurred"
message eio = "i/o error"
message ecanceled = "cancelled"
message etimeout = "timed out"
message eof = "end of file"
message eperm = "operation not permitted"
message ebusy = "resource busy or locked"
message eagain = "resource temporarily unavailable"
message enotsup = "not supported"
message enotimpl = "not implemented"
message enoent = "no such object"
message enodev = "no such device"
message eexist = "object already exists"
message enotfile = "not a file"
message enotdir = "not a directory"
message enotblk = "not a block device"
message enottty = "not a tty"
message enotsock = "not a socket"
message enotempty = "directory not empty"
message eisdir = "illegal operation on a directory"
message einval = "invalid argument"
message ebadfd = "bad file descriptor"
message ebadop = "invalid operation"
message exdev = "cross-device link not permitted"
message erange = "argument or result out of range"
message efault = "bad usage of memory"
message ebadexe = "corrupted or bad executable"
message eutf = "illegal utf8 sequence"
message ealready = "operation already in progress"
message enoresource = "resource or limit exhausted"
message eloop = "recursive symbolic link"
message efbig = "file too large"
message erofs = "read-only file system"
message enomem = "not enough memory"
message eproto = "protocol error"
message eremoteio = "remote I/O error"
message eaddrinuse = "address already in use"
message eaddrnotavail = "address not available"
message enetdown = "network is down"
message econnaborted = "software caused connection abort"
message econnreset = "connection reset by peer"
message econnrefused = "connection refused"
message ehostdown = "host is down"
message enomedium = "no medium found"
message eunknown = "unknown error"

-- The cases of the switch, in their order.
abbrev pub all_codes : List Code
all_codes =
    ok ∷ eio ∷ ecanceled ∷ etimeout ∷ eof ∷ eperm ∷ ebusy ∷ eagain ∷ enotsup ∷ enotimpl ∷ enoent
    ∷ enodev ∷ eexist ∷ enotfile ∷ enotdir ∷ enotblk ∷ enottty ∷ enotsock ∷ enotempty ∷ eisdir
    ∷ einval ∷ ebadfd ∷ ebadop ∷ exdev ∷ erange ∷ efault ∷ ebadexe ∷ eutf ∷ ealready ∷ enoresource
    ∷ eloop ∷ efbig ∷ erofs ∷ enomem ∷ eproto ∷ eremoteio ∷ eaddrinuse ∷ eaddrnotavail ∷ enetdown
    ∷ econnaborted ∷ econnreset ∷ econnrefused ∷ ehostdown ∷ enomedium ∷ eunknown ∷ []

-- The first case whose label is the number.
select : ℤ → List Code → String
unfolding code_value message
select code [] = "unknown OS-specific error"
select code (c ∷ cs) = if eqb_ℤ code (code_value c) then message c else select code cs

unfoldable pub strerr : ℤ → String
unfolding select
strerr code = select code all_codes
