-- ===== src/Async.antt =====
-- libdariadb/utils/async: threads.
pub mod Pool
