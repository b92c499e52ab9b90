-- ===== src/Container.antt =====
-- libdariadb/utils: containers.
pub mod StripedMap
