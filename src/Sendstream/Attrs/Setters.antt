-- ===== src/Sendstream/Attrs/Setters.antt =====
-- The setters of `CmdAttrs`: each stores the bytes of one attribute. The receiver is a map, which
-- the setter returns as it is afterwards.
use btrsync.Common.{ℕ, [], ◌∷◌}
use btrsync.Common.Bytes.{Bytes, put_uint}
use btrsync.Common.Dict.{insert}
use btrsync.Sendstream.Attributes.{
  btrfs_send_a_atime, btrfs_send_a_clone_ctransid, btrfs_send_a_clone_len,
  btrfs_send_a_clone_offset, btrfs_send_a_clone_path, btrfs_send_a_clone_uuid,
  btrfs_send_a_compression, btrfs_send_a_ctime, btrfs_send_a_ctransid, btrfs_send_a_data,
  btrfs_send_a_encryption, btrfs_send_a_fallocate_mode, btrfs_send_a_file_offset,
  btrfs_send_a_fileattr, btrfs_send_a_gid, btrfs_send_a_ino, btrfs_send_a_mode, btrfs_send_a_mtime,
  btrfs_send_a_otime, btrfs_send_a_path, btrfs_send_a_path_link, btrfs_send_a_path_to,
  btrfs_send_a_rdev, btrfs_send_a_size, btrfs_send_a_uid, btrfs_send_a_unencoded_file_len,
  btrfs_send_a_unencoded_len, btrfs_send_a_unencoded_offset, btrfs_send_a_uuid,
  btrfs_send_a_verity_algorithm, btrfs_send_a_verity_block_size, btrfs_send_a_verity_salt_data,
  btrfs_send_a_verity_sig_data, btrfs_send_a_xattr_data, btrfs_send_a_xattr_name,
}
use btrsync.Sendstream.Attrs.{CmdAttrs}
use btrsync.Sendstream.Attrs.Values.{Uuid, Time, timespec, put_timespec}

unfoldable pub set_data : Bytes → CmdAttrs → CmdAttrs
set_data v = insert btrfs_send_a_data (v)

unfoldable pub set_file_offset : ℕ → CmdAttrs → CmdAttrs
set_file_offset v = insert btrfs_send_a_file_offset (put_uint 8 v)

unfoldable pub set_path : Bytes → CmdAttrs → CmdAttrs
set_path v = insert btrfs_send_a_path (v)

unfoldable pub set_path_link : Bytes → CmdAttrs → CmdAttrs
set_path_link v = insert btrfs_send_a_path_link (v)

unfoldable pub set_path_to : Bytes → CmdAttrs → CmdAttrs
set_path_to v = insert btrfs_send_a_path_to (v)

unfoldable pub set_uuid : Uuid → CmdAttrs → CmdAttrs
set_uuid v = insert btrfs_send_a_uuid (v)

unfoldable pub set_clone_uuid : Uuid → CmdAttrs → CmdAttrs
set_clone_uuid v = insert btrfs_send_a_clone_uuid (v)

unfoldable pub set_ctransid : ℕ → CmdAttrs → CmdAttrs
set_ctransid v = insert btrfs_send_a_ctransid (put_uint 8 v)

unfoldable pub set_clone_ctransid : ℕ → CmdAttrs → CmdAttrs
set_clone_ctransid v = insert btrfs_send_a_clone_ctransid (put_uint 8 v)

unfoldable pub set_ino : ℕ → CmdAttrs → CmdAttrs
set_ino v = insert btrfs_send_a_ino (put_uint 8 v)

unfoldable pub set_mode32 : ℕ → CmdAttrs → CmdAttrs
set_mode32 v = insert btrfs_send_a_mode (put_uint 4 v)

unfoldable pub set_mode64 : ℕ → CmdAttrs → CmdAttrs
set_mode64 v = insert btrfs_send_a_mode (put_uint 8 v)

unfoldable pub set_rdev : ℕ → CmdAttrs → CmdAttrs
set_rdev v = insert btrfs_send_a_rdev (put_uint 8 v)

unfoldable pub set_unencoded_file_len : ℕ → CmdAttrs → CmdAttrs
set_unencoded_file_len v = insert btrfs_send_a_unencoded_file_len (put_uint 8 v)

unfoldable pub set_unencoded_len : ℕ → CmdAttrs → CmdAttrs
set_unencoded_len v = insert btrfs_send_a_unencoded_len (put_uint 8 v)

unfoldable pub set_unencoded_offset : ℕ → CmdAttrs → CmdAttrs
set_unencoded_offset v = insert btrfs_send_a_unencoded_offset (put_uint 8 v)

unfoldable pub set_compression_type : ℕ → CmdAttrs → CmdAttrs
set_compression_type v = insert btrfs_send_a_compression (put_uint 4 v)

unfoldable pub set_encryption_type : ℕ → CmdAttrs → CmdAttrs
set_encryption_type v = insert btrfs_send_a_encryption (put_uint 4 v)

unfoldable pub set_clone_len : ℕ → CmdAttrs → CmdAttrs
set_clone_len v = insert btrfs_send_a_clone_len (put_uint 8 v)

unfoldable pub set_clone_offset : ℕ → CmdAttrs → CmdAttrs
set_clone_offset v = insert btrfs_send_a_clone_offset (put_uint 8 v)

unfoldable pub set_clone_path : Bytes → CmdAttrs → CmdAttrs
set_clone_path v = insert btrfs_send_a_clone_path (v)

unfoldable pub set_clone_c_transid : ℕ → CmdAttrs → CmdAttrs
set_clone_c_transid v = insert btrfs_send_a_clone_ctransid (put_uint 8 v)

unfoldable pub set_xattr_name : Bytes → CmdAttrs → CmdAttrs
set_xattr_name v = insert btrfs_send_a_xattr_name (v)

unfoldable pub set_xattr_data : Bytes → CmdAttrs → CmdAttrs
set_xattr_data v = insert btrfs_send_a_xattr_data (v)

unfoldable pub set_size : ℕ → CmdAttrs → CmdAttrs
set_size v = insert btrfs_send_a_size (put_uint 8 v)

unfoldable pub set_uid : ℕ → CmdAttrs → CmdAttrs
set_uid v = insert btrfs_send_a_uid (put_uint 8 v)

unfoldable pub set_gid : ℕ → CmdAttrs → CmdAttrs
set_gid v = insert btrfs_send_a_gid (put_uint 8 v)

unfoldable pub set_atime : Time → CmdAttrs → CmdAttrs
set_atime v = insert btrfs_send_a_atime (put_timespec (timespec v))

unfoldable pub set_mtime : Time → CmdAttrs → CmdAttrs
set_mtime v = insert btrfs_send_a_mtime (put_timespec (timespec v))

unfoldable pub set_otime : Time → CmdAttrs → CmdAttrs
set_otime v = insert btrfs_send_a_otime (put_timespec (timespec v))

unfoldable pub set_ctime : Time → CmdAttrs → CmdAttrs
set_ctime v = insert btrfs_send_a_ctime (put_timespec (timespec v))

unfoldable pub set_verity_block_size : ℕ → CmdAttrs → CmdAttrs
set_verity_block_size v = insert btrfs_send_a_verity_block_size (put_uint 4 v)

unfoldable pub set_verity_salt : Bytes → CmdAttrs → CmdAttrs
set_verity_salt v = insert btrfs_send_a_verity_salt_data (v)

unfoldable pub set_verity_sig : Bytes → CmdAttrs → CmdAttrs
set_verity_sig v = insert btrfs_send_a_verity_sig_data (v)

unfoldable pub set_verity_algorithm : ℕ → CmdAttrs → CmdAttrs
set_verity_algorithm v = insert btrfs_send_a_verity_algorithm (v ∷ [])

unfoldable pub set_fallocate_mode : ℕ → CmdAttrs → CmdAttrs
set_fallocate_mode v = insert btrfs_send_a_fallocate_mode (put_uint 4 v)

unfoldable pub set_file_attr : ℕ → CmdAttrs → CmdAttrs
set_file_attr v = insert btrfs_send_a_fileattr (put_uint 4 v)
