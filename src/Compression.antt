-- ===== src/Compression.antt =====
-- libdariadb/compression: the byte buffer, the three value compressors, and their pair of facades.
pub mod Buffer
pub mod Outcome
pub mod Delta
pub mod Xor
pub mod Flag
pub mod Facade
