-- ===== src/Receive/Process.antt =====
-- The table of pkg/receive/send_ops.go from commands to process functions.
pub mod Ensure
pub mod Subvolumes
pub mod Nodes
pub mod Contents
pub mod Metadata
use btrsync.Common.{List, [], ◌∷◌}
use btrsync.Sendstream.Attrs.{CmdAttrs}
use btrsync.Sendstream.Commands.{
  SendCommand, btrfs_send_c_subvol, btrfs_send_c_snapshot, btrfs_send_c_mkfile, btrfs_send_c_mkdir,
  btrfs_send_c_mknod, btrfs_send_c_mkfifo, btrfs_send_c_mksock, btrfs_send_c_symlink,
  btrfs_send_c_rename, btrfs_send_c_link, btrfs_send_c_unlink, btrfs_send_c_rmdir,
  btrfs_send_c_write, btrfs_send_c_encoded_write, btrfs_send_c_clone, btrfs_send_c_set_xattr,
  btrfs_send_c_remove_xattr, btrfs_send_c_truncate, btrfs_send_c_chmod, btrfs_send_c_chown,
  btrfs_send_c_utimes, btrfs_send_c_update_extent, btrfs_send_c_enable_verity,
  btrfs_send_c_fallocate, btrfs_send_c_fileattr,
}
use btrsync.Receive.Context.{Libraries, M}
use btrsync.Receive.Receiver.{Receiver}
use btrsync.Receive.Process.Subvolumes.{process_subvol, process_snapshot}
use btrsync.Receive.Process.Contents.{process_write, process_encoded_write, process_clone}
use btrsync.Receive.Process.Nodes.{
  process_mkfile, process_mkdir, process_mknod, process_mkfifo, process_mksock, process_symlink,
  process_rename, process_link, process_unlink, process_rmdir,
}
use btrsync.Receive.Process.Metadata.{
  process_set_xattr, process_remove_xattr, process_truncate, process_chmod, process_chown,
  process_update_extent, process_enable_verity, process_fallocate, process_fileattr, process_utimes,
}

module _ (R : Receiver) (L : Libraries) where
  -- A map from commands to functions.
  unfoldable pub process_funcs : List (SendCommand × (CmdAttrs → M R (Unit {0})))
  process_funcs =
      (btrfs_send_c_subvol, process_subvol R L)
      ∷ (btrfs_send_c_snapshot, process_snapshot R L)
      ∷ (btrfs_send_c_mkfile, process_mkfile R)
      ∷ (btrfs_send_c_mkdir, process_mkdir R)
      ∷ (btrfs_send_c_mknod, process_mknod R)
      ∷ (btrfs_send_c_mkfifo, process_mkfifo R)
      ∷ (btrfs_send_c_mksock, process_mksock R)
      ∷ (btrfs_send_c_symlink, process_symlink R)
      ∷ (btrfs_send_c_rename, process_rename R)
      ∷ (btrfs_send_c_link, process_link R)
      ∷ (btrfs_send_c_unlink, process_unlink R)
      ∷ (btrfs_send_c_rmdir, process_rmdir R)
      ∷ (btrfs_send_c_write, process_write R L)
      ∷ (btrfs_send_c_encoded_write, process_encoded_write R L)
      ∷ (btrfs_send_c_clone, process_clone R L)
      ∷ (btrfs_send_c_set_xattr, process_set_xattr R)
      ∷ (btrfs_send_c_remove_xattr, process_remove_xattr R)
      ∷ (btrfs_send_c_truncate, process_truncate R)
      ∷ (btrfs_send_c_chmod, process_chmod R)
      ∷ (btrfs_send_c_chown, process_chown R)
      ∷ (btrfs_send_c_utimes, process_utimes R)
      ∷ (btrfs_send_c_update_extent, process_update_extent R)
      ∷ (btrfs_send_c_enable_verity, process_enable_verity R)
      ∷ (btrfs_send_c_fallocate, process_fallocate R)
      ∷ (btrfs_send_c_fileattr, process_fileattr R)
      ∷ []
