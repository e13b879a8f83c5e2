-- ===== src/Mount.antt =====
-- src/mount.rs: the file system of an archive, as the tree of inodes that `U4PakFS` keeps.
pub mod Time
pub mod Inode
pub mod Insert
pub mod Table
pub mod Invariant
pub mod Grown
pub mod Reaches
pub mod Placing
pub mod FileNode
pub mod Inserted
pub mod Mounted
pub mod Refused
pub mod Handlers
pub mod Reading
pub mod Slices
pub mod Blocks
pub mod Aligned
pub mod Unaligned
pub mod Requests
pub mod Contents
