-- ===== src/Types.antt =====
-- types/*.go: the data that engine and application exchange. Byte slices, strings and fixed-size
-- arrays are lists of bytes, unsigned integers are numbers, a nil pointer is `none`.
mod Core
mod Chain
mod Proposal
mod Snapshot
pub mod Capability
pub mod Time
pub use Core.*
pub use Chain.*
pub use Proposal.*
pub use Snapshot.*
