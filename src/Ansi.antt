-- ===== src/Ansi.antt =====
-- The port of src/ansi/impl.c over the streams of the C standard: their transfers and the modes that files
-- are opened with; its paths, and its clocks, sleeps and signals.
pub mod Stream
pub mod Open
pub mod Paths
pub mod Clock
mod Tests
pub mod Handles
