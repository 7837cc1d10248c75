-- ===== src/Alloc.antt =====
-- src/alloc.c: the bitmap of zone states and the block cache.
pub mod Bitmap
pub mod Cache
pub mod Machine
pub mod Startup
