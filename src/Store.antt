-- ===== src/Store.antt =====
-- pkg/ipam/store: how the addresses that the allocators give are written to the cluster.
pub mod Types
pub mod Names
pub mod Client
pub mod Cluster
pub mod Undo
pub mod Worker
pub mod Coupling
pub mod Noting
pub mod Couple
pub mod Tests
