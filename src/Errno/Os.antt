-- ===== src/Errno/Os.antt =====
-- The error numbers of <errno.h> and <netdb.h> that the source names, by name: their values are the
-- system's. A number that it does not name is `other`.
use libyaooi.Prelude.{ℕ}

-- `success` is 0 and `minus_one` is -1.
pub data Errno : Type 0 where
  success minus_one : Errno
  eperm enoent esrch eintr eio enxio e2big enoexec ebadf echild eagain enomem eacces efault : Errno
  ebusy eexist exdev enodev enotdir eisdir einval enfile emfile enotty etxtbsy efbig enospc : Errno
  espipe erofs emlink epipe erange edeadlk enametoolong enolck enosys enotempty eloop eunatch :
      Errno
  enodata enonet ecomm eproto eoverflow enotuniq elibbad eilseq enotsock edestaddrreq emsgsize :
      Errno
  eprototype enoprotoopt eprotonosupport esocktnosupport enotsup epfnosupport eafnosupport : Errno
  eaddrinuse eaddrnotavail enetdown enetunreach econnaborted econnreset enobufs eisconn : Errno
  enotconn eshutdown etimedout econnrefused ehostdown ehostunreach ealready eremoteio enomedium :
      Errno
  ecanceled enotblk edom : Errno
  other : ℕ → Errno

-- The results of `getaddrinfo`.
pub data AiErr : Type 0 where
  success : AiErr
  eai_badflags eai_noname eai_again eai_fail eai_family eai_socktype eai_service eai_memory : AiErr
  eai_overflow eai_nodata eai_addrfamily eai_canceled : AiErr
  other : ℕ → AiErr
