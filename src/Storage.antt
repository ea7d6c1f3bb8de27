-- ===== src/Storage.antt =====
-- crates/adabt-storage: varints, versions and slotted pages.
pub mod Varint
pub mod Version
pub mod Page
pub mod LittleEndian
pub mod Directory
pub mod Compress
pub mod Utf8
pub mod Reader
pub mod Wal
pub mod Tlv
