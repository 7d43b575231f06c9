-- ===== src/Sendstream.antt =====
-- pkg/sendstream: the btrfs send stream format.
pub mod Commands
pub mod Attributes
pub mod Crc32
pub mod Attrs
pub mod Headers
pub mod Scanner
pub mod Writer
pub mod Stream
