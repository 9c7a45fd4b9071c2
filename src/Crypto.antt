-- ===== src/Crypto.antt =====
-- The cryptographic data structures of the library: src/astreum/crypto.
pub mod Bloom
pub mod Merkle
