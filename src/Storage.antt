-- ===== src/Storage.antt =====
-- The storage of the node: src/astreum/storage.
pub mod Radix
