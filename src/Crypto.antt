-- ===== src/Crypto.antt =====
-- Filen's ciphers and metadata: src/crypto.rs.
pub mod Primitives
pub mod Aes
pub mod MasterKeys
pub mod Rsa
pub mod Metadata
pub mod FileChunk
