-- ===== src/Store/Session.antt =====
-- Calls of src/zc_source_store.h one after the other on a device whose requests succeed.
pub mod Lookup
pub mod Put
pub mod Remove
pub mod Content
