-- ===== src/Coordination.antt =====
-- coordination.py: how the members of a group share work and elect a leader.
pub mod Partitioner
pub mod Election
