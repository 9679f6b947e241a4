-- ===== src/Example.antt =====
-- example/: the two applications that the repository gives as examples.
pub mod Counter
pub mod Dex
