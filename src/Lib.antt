-- ===== src/Lib.antt =====
-- libyaooi, a cross-platform layer over the operations of an operating system: blocking
-- functions that wrap the system's (inc/yaooi/io.h), and asynchronous requests that a queue
-- gives back when they complete (inc/yaooi/queue.h, inc/yaooi/ioq.h).
--
-- The parts and their files. A definition has the name of the C function or type without its
-- prefix (yo_, yoi_, yoi_unix_, _yoi_pl_); one that stands for a part of a function says so in a
-- comment.
--   Prelude: the shared names; Boolean tests, lists, and integers over the machine's natural
--     numbers.
--   Time: src/time.c. A time is whole seconds, an integer without bounds, and nanoseconds, a
--     uint32_t whose wrap-around is written out.
--   Addr: src/addr.c. A string is its list of character codes. The loops are structural on the
--     string, and the eight rounds of the IPv6 loop are counted, so that no fuel is needed.
--   Errno: inc/yaooi/errno.h, the function yo_strerr of src/yaooi.c, and the conversions of
--     error numbers of src/unix/impl.c and src/ansi/impl.c. The system's numbers are a data type
--     with one constructor for each name that the source tests and one for all others.
--   Signal: the signal functions of src/unix/impl.c, with the reference counts of
--     _core_sig_counts, the set of blocked signals and the mask of the thread. What
--     pthread_sigmask and sigwait answer are arguments, so the wait loop is structural on the
--     list of events.
--   Dlist: the doubly linked lists of src/utils/lists.h. A node is an address, and its slot
--     points at the pointer that points at it.
--   Queue: src/queue.c and src/queue.h. The heap holds the requests' two first union words, so
--     that the overlap of running.cancel and running.cancelled with ready.code and ready.next is
--     that of a little-endian machine with 8-byte pointers. The ready list is singly linked
--     through those words. Queue.Life has yo_queue_new and yo_queue_free.
--   Pollish: src/unix/pollish.c, for the requests of one descriptor: a list of Dlist, which ends
--     on the ready list of Queue. The poller behind yoi_pl_impl_setmask is a parameter with any
--     state, and what happens during the calls of yoi_pl_impl_poll is a list of events, on which
--     the loop of yo_queue_poll is structural.
--   Poll: yoi_pl_impl_setmask of src/unix/poll.c, over the lists of Dlist, where malloc is the
--     address that it returns; and in Poll.Round yoi_pl_impl_poll, over the nodes in the order
--     of their list.
--   Files, Sockaddr: the transfers of src/unix/impl.c and of src/win/impl.c by the number that
--     the system answers (Files.Transfer), and the conversions of the open flags (on Linux) and
--     of socket addresses in src/unix/impl.c.
--   Socket: yo_socket_connect, yo_socket_bind and yo_socket_accept of src/unix/impl.c, with the
--     descriptors and the memory that they hold. What each call of the system answers is an
--     argument.
--   Spawn: yo_proc_spawn of src/unix/impl.c, with the descriptors that it opens and closes, in
--     the parent and up to the program that the child becomes. The labels at its end are
--     functions that call the next one.
--   Pool: the thread pool of src/pool.c. An event is a call of yo_req_exec, or what one thread
--     does between taking a lock and giving it back, and a history is any list of events.
--   Fallback: the functions that YOI_MKFALLBACK of src/fallback/async.c makes, with the block of
--     arguments of a call, over the pool of Pool.
--   Fallback.Poll: yo_queue_poll of src/fallback/queue.c. With threads, a step relation whose
--     steps are the sections of the poller that hold the lock, the ends of requests by other
--     threads and the ends of the wait; without threads, over the readings of the clock.
--   Waits: what the system is given for a deadline in src/unix/poll.c, src/utils/multithread.h
--     and src/win/impl.c, and the loops of src/unix/poll.c and of yo_timesleep that wait again
--     behind a signal.
--   Dns: yo_dns_getaddrinfo of src/unix/impl.c, whose system function is a parameter.
--   Dir: yo_dir_next of src/unix/impl.c, and in Dir.Windows yo_dir_open and yo_dir_next of
--     src/win/impl.c, on the stream of entries that the system gives. Dir.Listed.listing bounds
--     the number of calls.
--   Windows: the command lines (Windows.Cmdline), the error numbers (Windows.Errors,
--     Windows.Errno), the environment blocks (Windows.Env), the clocks (Windows.Clock) and
--     yo_proc_spawn (Windows.Spawn, with its handles and blocks on every path, and what
--     CreateProcessW is given), yo_file_open and yo_file_remove (Windows.Files), the sockets
--     (Windows.Sockets), yo_dns_getaddrinfo (Windows.Dns), yo_env_get and yo_env_set
--     (Windows.Vars), yo_dir_open with yoi_win_fix_path (Windows.Directories), yo_getpath
--     (Windows.Folders), and yo_fd_new, yo_fd_close, yo_proc_wait, yo_proc_disown and the links
--     (Windows.Endings) of src/win/impl.c. A text is its list of units. Windows.Conversions has
--     yoi_win_conv_utf8 and yoi_win_conv_utf16, over the functions of the system; the second is
--     documented to fail with the flag that it is given, which the parts that convert back take
--     as a hypothesis.
--   Epoll: src/unix/epoll.c. The interest list behind epoll_ctl is an interface with the laws of
--     the manual; in Epoll.Wait the last answer of epoll_wait is an argument; Epoll.Setup counts
--     the descriptors of a queue, with yoi_pl_init and yoi_pl_free of src/unix/pollish.c.
--   Paths: yo_getpath of src/unix/impl.c; what malloc, getenv, getpwuid_r and getcwd answer are
--     functions of what they are asked.
--   Ansi: src/ansi/impl.c, its transfers over the streams of the C standard (Ansi.Stream), where
--     the failures of the device are arguments, and the modes of fopen (Ansi.Open) against the
--     flags of Files; its paths (Ansi.Paths), clocks, sleeps and signals (Ansi.Clock), and
--     handles (Ansi.Handles).
--   Stat: yo_stat of src/unix/impl.c and of src/win/impl.c, with yoi_unix_conv_stat and
--     COMBINE64, for yo_stat_t of inc/yaooi/io.h.
--   Unix: of src/unix/impl.c the handles that yo_fd_new and yo_file_open make and yo_fd_close
--     ends (Unix.Handles), raw mode of a terminal (Unix.Tty), yo_proc_wait and yo_proc_disown
--     (Unix.Wait), and yo_file_readlink with its block (Unix.Links).
--   Env: yo_env_get, yo_env_set and the iterator of src/unix/impl.c, and yo_env_set of
--     src/ansi/impl.c. getenv, setenv and unsetenv are arguments.
--
-- How they interact: a request is started on a descriptor (Pollish.req_start) and linked into
-- its list (Dlist.dlist_add) while its counters give the poller's mask; when the descriptor is
-- ready the first fitting request is found (Pollish.get_req) and taken out (Pollish.req_stop,
-- Dlist.dlist_del); when it is cancelled, refused or its descriptor closed, it ends on the ready
-- list of its queue (Queue.req_end), where the caller takes it (Queue.queue_pop). The codes that
-- go through are those of Errno. An operation that no backend can wait for is deployed
-- (Fallback.deployed) to a thread of the pool (Pool.req_exec), which ends it on its queue;
-- yo_queue_free joins these threads (Pool.Join). On Windows yo_proc_spawn hands its child a
-- command line (Windows.Cmdline) and an environment block (Windows.Env).
--
-- Fuel: Pollish.get_req, Pollish.onclose and Poll.find walk a linked list with a bound on their
-- rounds, and their theorems ask for more rounds than the list has nodes. Queue.Drain.drain has
-- the same kind of bound. Windows.Directories.fix_path has a round for each unit of the pattern,
-- which are no fewer than its slashes. Dir.Listed.listing bounds the calls of an iteration, and
-- its theorem asks for one call more than there are entries. Pool.Join.rounds counts the rounds
-- of a thread. Paths.grow doubles a buffer from 4096 bytes in at most 51 rounds, which is enough
-- where malloc refuses 2^63 bytes. All other loops are structural.
--
-- Not modelled: the workers of src/fallback/async.c; the cancellation of the pool's threads and
-- yoi_queue_impl_notify; the functions of src/unix/impl.c, src/ansi/impl.c and src/win/impl.c
-- that pass their arguments to one call of the system, or that return YO_ENOTSUP; readlink,
-- signals and raw mode of the Windows port, which are not implemented; yo_write of the ansi
-- port, whose behaviour is undefined; and the wrappers of locks and threads in
-- src/utils/multithread.h. The lock of a queue is held around each of its operations, so that
-- these are taken as single steps.
pub mod Prelude
pub mod Time
pub mod Addr
pub mod Errno
pub mod Signal
pub mod Dlist
pub mod Queue
pub mod Pollish
pub mod Poll
pub mod Files
pub mod Sockaddr
pub mod Socket
pub mod Spawn
pub mod Pool
pub mod Dns
pub mod Dir
pub mod Windows
pub mod Epoll
pub mod Ansi
pub mod Paths
pub mod Fallback
pub mod Waits
pub mod Stat
pub mod Unix
pub mod Env
