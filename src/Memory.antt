-- ===== src/Memory.antt =====
-- libdariadb/storage/memstorage: the allocator of chunks, and the track of one id.
pub mod Allocator
pub mod Track
