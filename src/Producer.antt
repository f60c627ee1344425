-- ===== src/Producer.antt =====
-- producer/: the periodic tasks, each over the shards of this member of the group.
pub mod Sharding
pub mod Paging
pub mod Tasks
