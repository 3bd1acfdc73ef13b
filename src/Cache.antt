-- ===== src/Cache.antt =====
-- src/cache.c: the records that say what was last seen, the files that hold them, and their locks.
pub mod Record
pub mod Load
pub mod Place
pub mod Save
pub mod Lock
