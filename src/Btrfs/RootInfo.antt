-- ===== src/Btrfs/RootInfo.antt =====
-- `RootInfo` of pkg/btrfs/btrfs_rb_tree.go.
use btrsync.Common.{Bool, ℕ}
use btrsync.Common.Bytes.{Bytes}

-- The fields of a `RootInfo` that are no pointers. Times are in nanoseconds since the zero time.
pub record RootInfo : Type 0 where
  pub root_id : ℕ
  pub root_offset : ℕ
  pub flags : ℕ
  pub ref_tree : ℕ
  pub dir_id : ℕ
  pub top_id : ℕ
  pub generation : ℕ
  pub original_generation : ℕ
  pub creation_time : ℕ
  pub send_time : ℕ
  pub receive_time : ℕ
  pub uuid : Bytes
  pub parent_uuid : Bytes
  pub received_uuid : Bytes
  pub path : Bytes
  pub name : Bytes
  pub full_path : Bytes
  pub deleted : Bool
