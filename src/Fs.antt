-- ===== src/Fs.antt =====
-- src/fs_lib.c: directories, files and their data, as programs over zones.
pub mod Dir
pub mod Listing
pub mod Remove
pub mod Release
pub mod Data
pub mod Size
pub mod Show
pub mod Whole
