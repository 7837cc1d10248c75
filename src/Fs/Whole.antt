-- ===== src/Fs/Whole.antt =====
-- src/fs_lib.c: every zone that it writes has 64 bytes.
pub mod Dirs
pub mod Files
pub mod Data
pub mod Listings
