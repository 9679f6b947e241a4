-- ===== src/Testing.antt =====
-- testing/: the harness for application developers, the mock application, and the suite of checks.
pub mod Harness
pub mod Mock
pub mod Live
pub mod Counts
pub mod Compliance
pub mod Suite
pub mod Passing
