-- ===== src/PoolManager.antt =====
-- pool_manager/service.py: how the answers of the nameservers become reports to central.
pub mod Consensus
pub mod Statuses
pub mod Zones
