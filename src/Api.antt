-- ===== src/Api.antt =====
-- pkg/apis/networking/v1: the objects of the networking API and the helpers over them.
pub mod Types
pub mod Range
pub mod Capacity
pub mod Valid
pub mod Transform
pub mod Intersect
pub mod Quota
pub mod Tests
