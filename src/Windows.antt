-- ===== src/Windows.antt =====
-- The Windows port, src/win/impl.c.
pub mod Cmdline
pub mod Errors
pub mod Conversions
pub mod Errno
pub mod Env
pub mod Clock
pub mod Spawn
pub mod Files
pub mod Sockets
pub mod Dns
pub mod Vars
pub mod Directories
pub mod Folders
pub mod Endings
