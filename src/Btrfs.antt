-- ===== src/Btrfs.antt =====
-- pkg/btrfs: the parts that need no file system.
pub mod EncodedWrite
pub mod RootInfo
pub mod RootTree
