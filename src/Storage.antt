-- ===== src/Storage.antt =====
-- storage/: the statistics of a chunk, the chunk, and the cursors.
pub mod Bloom
pub mod Select
pub mod Statistic
pub mod Chunk
pub mod FullCursor
pub mod Cursor
pub mod Merge
pub mod Linear
pub mod Wal
pub mod Pages
pub mod Collapse
