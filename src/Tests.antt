-- ===== src/Tests.antt =====
-- The theorems at concrete inputs: a disk of zeros, and a small file system.
mod Machine
mod Files
mod Messages
mod Texts
mod Tree
mod Streams
mod Talks
mod Session
mod Shutdowns
mod Shells
mod Unlink
mod Removal
