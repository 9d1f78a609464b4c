-- ===== src/Fs.antt =====
-- fs.c: the file system, from the blocks of the disk up to path names.
pub mod Disk
pub mod Inodes
pub mod Files
pub mod Dirs
pub mod Paths
pub mod Bits
pub mod Alloc
pub mod Words
pub mod Dinodes
pub mod Search
pub mod Refs
mod Tests
