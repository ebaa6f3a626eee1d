-- ===== src/Cache.antt =====
-- The cache of releases, cache/.
pub mod Paths
pub mod File
