-- ===== src/Storage.antt =====
-- The registry of src/bob/storage/registry.py and the file cache of src/bob/storage/cache.py.
pub mod Tables
pub mod Registry
pub mod Cache
