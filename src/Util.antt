-- ===== src/Util.antt =====
-- src/util.c: strings, numbers and buffers of the fast path.
pub mod Text
pub mod Number
pub mod Buffer
pub mod Output
pub mod Format
pub mod Hash
pub mod Source
