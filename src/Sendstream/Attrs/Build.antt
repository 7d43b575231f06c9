-- ===== src/Sendstream/Attrs/Build.antt =====
-- The constructors of commands, `New…Command`: a command number and the map of its attributes.
use btrsync.Common.{ℕ}
use btrsync.Common.Bytes.{Bytes}
use btrsync.Btrfs.EncodedWrite.{EncodedWriteOp}
use btrsync.Sendstream.Commands.{
  SendCommand, btrfs_send_c_chmod, btrfs_send_c_chown, btrfs_send_c_clone,
  btrfs_send_c_enable_verity, btrfs_send_c_encoded_write, btrfs_send_c_end, btrfs_send_c_fallocate,
  btrfs_send_c_fileattr, btrfs_send_c_link, btrfs_send_c_mkdir, btrfs_send_c_mkfifo,
  btrfs_send_c_mkfile, btrfs_send_c_mknod, btrfs_send_c_mksock, btrfs_send_c_remove_xattr,
  btrfs_send_c_rename, btrfs_send_c_rmdir, btrfs_send_c_set_xattr, btrfs_send_c_snapshot,
  btrfs_send_c_subvol, btrfs_send_c_symlink, btrfs_send_c_truncate, btrfs_send_c_unlink,
  btrfs_send_c_update_extent, btrfs_send_c_utimes, btrfs_send_c_write,
}
use btrsync.Sendstream.Attrs.{CmdAttrs, new_cmd_attrs}
use btrsync.Sendstream.Attrs.Values.{Uuid, Time}
use btrsync.Sendstream.Attrs.Setters.{
  set_atime, set_clone_ctransid, set_clone_len, set_clone_offset, set_clone_path, set_clone_uuid,
  set_compression_type, set_ctime, set_ctransid, set_data, set_encryption_type, set_fallocate_mode,
  set_file_attr, set_file_offset, set_gid, set_ino, set_mode32, set_mode64, set_mtime, set_path,
  set_path_link, set_path_to, set_rdev, set_size, set_uid, set_unencoded_file_len,
  set_unencoded_len, set_unencoded_offset, set_uuid, set_verity_algorithm, set_verity_block_size,
  set_verity_salt, set_verity_sig, set_xattr_data, set_xattr_name,
}

unfoldable pub new_subvol_command : Bytes → Uuid → ℕ → SendCommand × CmdAttrs
new_subvol_command path uu ctransid =
    (btrfs_send_c_subvol, set_ctransid ctransid (set_uuid uu (set_path path new_cmd_attrs)))

unfoldable pub new_snapshot_command : Bytes → Uuid → ℕ → Uuid → ℕ → SendCommand × CmdAttrs
new_snapshot_command path uu ctransid clone_uu clone_ctransid = (
  btrfs_send_c_snapshot,
  set_clone_ctransid clone_ctransid
      (set_clone_uuid clone_uu (set_ctransid ctransid (set_uuid uu (set_path path new_cmd_attrs)))),
)

unfoldable pub new_mkfile_command : Bytes → ℕ → SendCommand × CmdAttrs
new_mkfile_command path ino = (btrfs_send_c_mkfile, set_ino ino (set_path path new_cmd_attrs))

unfoldable pub new_mkdir_command : Bytes → ℕ → SendCommand × CmdAttrs
new_mkdir_command path ino = (btrfs_send_c_mkdir, set_ino ino (set_path path new_cmd_attrs))

unfoldable pub new_mknod_command : Bytes → ℕ → ℕ → ℕ → SendCommand × CmdAttrs
new_mknod_command path ino mode rdev = (
  btrfs_send_c_mknod,
  set_rdev rdev (set_mode32 mode (set_ino ino (set_path path new_cmd_attrs))),
)

unfoldable pub new_mkfifo_command : Bytes → ℕ → SendCommand × CmdAttrs
new_mkfifo_command path ino = (btrfs_send_c_mkfifo, set_ino ino (set_path path new_cmd_attrs))

unfoldable pub new_mksock_command : Bytes → ℕ → SendCommand × CmdAttrs
new_mksock_command path ino = (btrfs_send_c_mksock, set_ino ino (set_path path new_cmd_attrs))

unfoldable pub new_symlink_command : Bytes → Bytes → ℕ → SendCommand × CmdAttrs
new_symlink_command path link ino =
    (btrfs_send_c_symlink, set_path_link link (set_ino ino (set_path path new_cmd_attrs)))

unfoldable pub new_rename_command : Bytes → Bytes → SendCommand × CmdAttrs
new_rename_command path path_to =
    (btrfs_send_c_rename, set_path_to path_to (set_path path new_cmd_attrs))

unfoldable pub new_link_command : Bytes → Bytes → SendCommand × CmdAttrs
new_link_command path link = (btrfs_send_c_link, set_path_link link (set_path path new_cmd_attrs))

unfoldable pub new_unlink_command : Bytes → SendCommand × CmdAttrs
new_unlink_command path = (btrfs_send_c_unlink, set_path path new_cmd_attrs)

unfoldable pub new_rmdir_command : Bytes → SendCommand × CmdAttrs
new_rmdir_command path = (btrfs_send_c_rmdir, set_path path new_cmd_attrs)

unfoldable pub new_write_command : Bytes → ℕ → Bytes → SendCommand × CmdAttrs
new_write_command path offset content =
    (btrfs_send_c_write, set_data content (set_file_offset offset (set_path path new_cmd_attrs)))

unfoldable pub new_encoded_write_command : Bytes → EncodedWriteOp → SendCommand × CmdAttrs
new_encoded_write_command path enc = (
  btrfs_send_c_encoded_write,
  set_encryption_type enc.encryption (
      set_compression_type enc.compression (
        set_unencoded_offset enc.unencoded_offset (
          set_unencoded_len enc.unencoded_length (
            set_unencoded_file_len enc.unencoded_file_length
              (set_data enc.data' (set_file_offset enc.offset (set_path path new_cmd_attrs))))))),
)

unfoldable pub new_clone_command : Bytes → ℕ → ℕ → Uuid → ℕ → Bytes → ℕ → SendCommand × CmdAttrs
new_clone_command path offset clone_len clone_uuid clone_ctransid clone_path clone_offset = (
  btrfs_send_c_clone,
  set_clone_offset clone_offset (
      set_clone_path clone_path (
        set_clone_ctransid clone_ctransid (
          set_clone_uuid clone_uuid
            (set_clone_len clone_len (set_file_offset offset (set_path path new_cmd_attrs)))))),
)

unfoldable pub new_set_xattr_command : Bytes → Bytes → Bytes → SendCommand × CmdAttrs
new_set_xattr_command path name content = (
  btrfs_send_c_set_xattr,
  set_xattr_data content (set_xattr_name name (set_path path new_cmd_attrs)),
)

unfoldable pub new_remove_xattr_command : Bytes → Bytes → SendCommand × CmdAttrs
new_remove_xattr_command path name =
    (btrfs_send_c_remove_xattr, set_xattr_name name (set_path path new_cmd_attrs))

unfoldable pub new_truncate_command : Bytes → ℕ → SendCommand × CmdAttrs
new_truncate_command path size =
    (btrfs_send_c_truncate, set_size size (set_path path new_cmd_attrs))

unfoldable pub new_chmod_command : Bytes → ℕ → SendCommand × CmdAttrs
new_chmod_command path mode = (btrfs_send_c_chmod, set_mode64 mode (set_path path new_cmd_attrs))

unfoldable pub new_chown_command : Bytes → ℕ → ℕ → SendCommand × CmdAttrs
new_chown_command path uid gid =
    (btrfs_send_c_chown, set_gid gid (set_uid uid (set_path path new_cmd_attrs)))

unfoldable pub new_utimes_command : Bytes → Time → Time → Time → SendCommand × CmdAttrs
new_utimes_command path atime mtime ctime = (
  btrfs_send_c_utimes,
  set_ctime ctime (set_mtime mtime (set_atime atime (set_path path new_cmd_attrs))),
)

unfoldable pub new_update_extent_command : Bytes → ℕ → ℕ → SendCommand × CmdAttrs
new_update_extent_command path offset size = (
  btrfs_send_c_update_extent,
  set_size size (set_file_offset offset (set_path path new_cmd_attrs)),
)

unfoldable pub new_enable_verity_command : Bytes → ℕ → ℕ → Bytes → Bytes → SendCommand × CmdAttrs
new_enable_verity_command path alg block_size salt sig = (
  btrfs_send_c_enable_verity,
  set_verity_sig sig (
      set_verity_salt salt (
        set_verity_block_size block_size (set_verity_algorithm alg (set_path path new_cmd_attrs)))),
)

unfoldable pub new_fallocate_command : Bytes → ℕ → ℕ → ℕ → SendCommand × CmdAttrs
new_fallocate_command path mode offset size = (
  btrfs_send_c_fallocate,
  set_size size (set_file_offset offset (set_fallocate_mode mode (set_path path new_cmd_attrs))),
)

unfoldable pub new_file_attr_command : Bytes → ℕ → SendCommand × CmdAttrs
new_file_attr_command path attr =
    (btrfs_send_c_fileattr, set_file_attr attr (set_path path new_cmd_attrs))

unfoldable pub new_end_command : SendCommand × CmdAttrs
new_end_command = (btrfs_send_c_end, new_cmd_attrs)
