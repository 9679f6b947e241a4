-- ===== src/Tests.antt =====
-- The concrete runs at which the theorems are applied.
pub mod Data
pub mod Messages
pub mod Network
pub mod Serving
pub mod Counting
pub mod Trading
pub mod Overlapping
pub mod Exchanging
pub mod Snapshots
pub mod Pricing
pub mod Remote
pub mod Testing
