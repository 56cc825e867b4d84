-- ===== src/Crypto.antt =====
-- The ciphers and checksums of the network protocol.
pub mod Xtea
pub mod Checksum
mod Examples
