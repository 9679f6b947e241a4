-- ===== src/Go.antt =====
-- What the program uses of the Go language and its standard library.
pub mod Text
pub mod Error
pub mod Run
pub mod BigEndian
pub mod Order
pub mod Dict
pub mod Sort
pub mod Time
