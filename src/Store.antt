-- ===== src/Store.antt =====
-- The append-only source store, src/zc_source_store.h.
pub mod Bytes
pub mod Crc
pub mod Name
pub mod Record
pub mod Bank
pub mod Catalog
pub mod Find
pub mod Write
pub mod Session
pub mod Tests
pub mod Read
pub mod Log
pub mod Stream
