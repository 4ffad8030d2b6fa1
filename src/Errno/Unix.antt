-- ===== src/Errno/Unix.antt =====
-- `yoi_unix_conv_errno` and `yoi_unix_conv_aierr` of src/unix/impl.c.
use libyaooi.Prelude.{Option, none, some}
use libyaooi.Errno.Os.{Errno, AiErr}
use libyaooi.Errno.{Code}

-- none is the failed assertion on -1.
unfoldable pub conv_errno : Errno → Option Code
conv_errno Errno.eperm = some Code.eperm
conv_errno Errno.enoent = some Code.enoent
conv_errno Errno.esrch = some Code.enoent
conv_errno Errno.eintr = some Code.ecanceled
conv_errno Errno.eio = some Code.eio
conv_errno Errno.enxio = some Code.enoent
conv_errno Errno.e2big = some Code.einval
conv_errno Errno.enoexec = some Code.ebadexe
conv_errno Errno.ebadf = some Code.ebadfd
conv_errno Errno.echild = some Code.eunknown
conv_errno Errno.eagain = some Code.eagain
conv_errno Errno.enomem = some Code.enomem
conv_errno Errno.eacces = some Code.eperm
conv_errno Errno.efault = some Code.efault
conv_errno Errno.ebusy = some Code.ebusy
conv_errno Errno.eexist = some Code.eexist
conv_errno Errno.exdev = some Code.exdev
conv_errno Errno.enodev = some Code.enodev
conv_errno Errno.enotdir = some Code.enotdir
conv_errno Errno.eisdir = some Code.eisdir
conv_errno Errno.einval = some Code.einval
conv_errno Errno.enfile = some Code.enoresource
conv_errno Errno.emfile = some Code.enoresource
conv_errno Errno.enotty = some Code.enottty
conv_errno Errno.etxtbsy = some Code.ebusy
conv_errno Errno.efbig = some Code.efbig
conv_errno Errno.enospc = some Code.enoresource
conv_errno Errno.espipe = some Code.ebadop
conv_errno Errno.erofs = some Code.erofs
conv_errno Errno.emlink = some Code.enoresource
conv_errno Errno.epipe = some Code.eof
conv_errno Errno.erange = some Code.erange
conv_errno Errno.edeadlk = some Code.ebusy
conv_errno Errno.enametoolong = some Code.erange
conv_errno Errno.enolck = some Code.enoresource
conv_errno Errno.enosys = some Code.enoresource
conv_errno Errno.enotempty = some Code.enotempty
conv_errno Errno.eloop = some Code.eloop
conv_errno Errno.eunatch = some Code.enoent
conv_errno Errno.enodata = some Code.eof
conv_errno Errno.enonet = some Code.enetdown
conv_errno Errno.ecomm = some Code.eproto
conv_errno Errno.eproto = some Code.eproto
conv_errno Errno.eoverflow = some Code.erange
conv_errno Errno.enotuniq = some Code.eexist
conv_errno Errno.elibbad = some Code.ebadexe
conv_errno Errno.eilseq = some Code.eutf
conv_errno Errno.enotsock = some Code.enotsock
conv_errno Errno.edestaddrreq = some Code.einval
conv_errno Errno.emsgsize = some Code.erange
conv_errno Errno.eprototype = some Code.einval
conv_errno Errno.enoprotoopt = some Code.enotsup
conv_errno Errno.eprotonosupport = some Code.enotsup
conv_errno Errno.esocktnosupport = some Code.enotsup
conv_errno Errno.enotsup = some Code.enotsup
conv_errno Errno.epfnosupport = some Code.enotsup
conv_errno Errno.eafnosupport = some Code.enotsup
conv_errno Errno.eaddrinuse = some Code.eaddrinuse
conv_errno Errno.eaddrnotavail = some Code.eaddrnotavail
conv_errno Errno.enetdown = some Code.enetdown
conv_errno Errno.enetunreach = some Code.enetdown
conv_errno Errno.econnaborted = some Code.econnaborted
conv_errno Errno.econnreset = some Code.econnreset
conv_errno Errno.enobufs = some Code.erange
conv_errno Errno.eisconn = some Code.ebadop
conv_errno Errno.enotconn = some Code.ebadop
conv_errno Errno.eshutdown = some Code.eof
conv_errno Errno.etimedout = some Code.etimeout
conv_errno Errno.econnrefused = some Code.econnrefused
conv_errno Errno.ehostdown = some Code.ehostdown
conv_errno Errno.ehostunreach = some Code.ehostdown
conv_errno Errno.ealready = some Code.ealready
conv_errno Errno.eremoteio = some Code.eremoteio
conv_errno Errno.enomedium = some Code.enomedium
conv_errno Errno.ecanceled = some Code.ecanceled
conv_errno Errno.success = some Code.ok
conv_errno Errno.minus_one = none
conv_errno _ = some Code.eunknown

unfoldable pub conv_aierr : AiErr → Code
conv_aierr AiErr.eai_badflags = Code.einval
conv_aierr AiErr.eai_noname = Code.einval
conv_aierr AiErr.eai_again = Code.eagain
conv_aierr AiErr.eai_fail = Code.eio
conv_aierr AiErr.eai_family = Code.enotsup
conv_aierr AiErr.eai_socktype = Code.enotsup
conv_aierr AiErr.eai_service = Code.enotsup
conv_aierr AiErr.eai_memory = Code.enomem
conv_aierr AiErr.eai_overflow = Code.erange
conv_aierr AiErr.eai_nodata = Code.eof
conv_aierr AiErr.eai_addrfamily = Code.enotsup
conv_aierr AiErr.eai_canceled = Code.ecanceled
conv_aierr _ = Code.eunknown
