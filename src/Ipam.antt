-- ===== src/Ipam.antt =====
-- pkg/ipam: the in-memory IP address manager.
pub mod Types
pub mod Tests
pub mod IpSlice
pub mod IpSet
pub mod Subnet
pub mod Validate
pub mod Sync
pub mod Usage
pub mod Classify
pub mod SubnetSlice
pub mod Network
pub mod Report
pub mod Allocator
pub mod Family
pub mod DualStack
