-- ===== src/Central.antt =====
-- central/service.py: the service that owns the zones, recordsets and records.
pub mod Store
pub mod Status
pub mod Checks
pub mod Locks
pub mod Purge
pub mod Transfers
