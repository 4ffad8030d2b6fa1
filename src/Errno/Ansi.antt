-- ===== src/Errno/Ansi.antt =====
-- `yoi_ansi_conv_errno` of src/ansi/impl.c, on a system that has every error number it names.
use libyaooi.Errno.Os.{Errno}
use libyaooi.Errno.{Code}

unfoldable pub conv_errno : Errno → Code → Code
conv_errno Errno.eperm fallback = Code.eperm
conv_errno Errno.enoent fallback = Code.enoent
conv_errno Errno.esrch fallback = Code.enoent
conv_errno Errno.eintr fallback = Code.ecanceled
conv_errno Errno.eio fallback = Code.eio
conv_errno Errno.enxio fallback = Code.enoresource
conv_errno Errno.e2big fallback = Code.einval
conv_errno Errno.enoexec fallback = Code.ebadexe
conv_errno Errno.ebadf fallback = Code.ebadfd
conv_errno Errno.echild fallback = Code.eio
conv_errno Errno.eagain fallback = Code.eagain
conv_errno Errno.enomem fallback = Code.enomem
conv_errno Errno.eacces fallback = Code.eperm
conv_errno Errno.efault fallback = Code.efault
conv_errno Errno.enotblk fallback = Code.enotblk
conv_errno Errno.ebusy fallback = Code.ebusy
conv_errno Errno.eexist fallback = Code.eexist
conv_errno Errno.exdev fallback = Code.exdev
conv_errno Errno.enodev fallback = Code.enodev
conv_errno Errno.enotdir fallback = Code.enotdir
conv_errno Errno.eisdir fallback = Code.eisdir
conv_errno Errno.einval fallback = Code.einval
conv_errno Errno.enfile fallback = Code.enoresource
conv_errno Errno.emfile fallback = Code.enoresource
conv_errno Errno.enotty fallback = Code.enottty
conv_errno Errno.etxtbsy fallback = Code.ebusy
conv_errno Errno.efbig fallback = Code.efbig
conv_errno Errno.enospc fallback = Code.enoresource
conv_errno Errno.espipe fallback = Code.ebadop
conv_errno Errno.erofs fallback = Code.erofs
conv_errno Errno.emlink fallback = Code.enoresource
conv_errno Errno.epipe fallback = Code.eof
conv_errno Errno.edom fallback = Code.erange
conv_errno Errno.erange fallback = Code.erange
conv_errno _ fallback = fallback
