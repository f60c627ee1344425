-- ===== src/Storage.antt =====
-- What the storage layer does for the services that query it.
pub mod Criteria
pub mod Rows
pub mod Recordsets
