-- ===== src/Unix.antt =====
-- Blocking functions of src/unix/impl.c that stand alone: the handles of files and what they hold, raw mode of a
-- terminal, the end of a process, and the target of a link.
pub mod Handles
pub mod Tty
pub mod Wait
pub mod Links
mod Tests
