-- ===== src/Storage/Wal.antt =====
-- crates/adabt-storage/src/wal.rs: the write-ahead log.
pub mod Entry
pub mod Frames
pub mod Buffer
pub mod Log
mod Tests
