-- ===== src/Receive/Process/Metadata.antt =====
-- The process functions of pkg/receive/send_ops.go for attributes, sizes and extents of a file.
use btrsync.Common.{[], ◌∷◌}
use btrsync.Common.Action.{◌>>=◌, ◌>>◌, lift}
use btrsync.Sendstream.Attributes.{
  btrfs_send_a_atime, btrfs_send_a_mtime, btrfs_send_a_ctime, btrfs_send_a_fallocate_mode,
  btrfs_send_a_file_offset, btrfs_send_a_fileattr, btrfs_send_a_gid, btrfs_send_a_mode,
  btrfs_send_a_path, btrfs_send_a_size, btrfs_send_a_uid, btrfs_send_a_verity_algorithm,
  btrfs_send_a_verity_block_size, btrfs_send_a_verity_salt_data, btrfs_send_a_verity_sig_data,
  btrfs_send_a_xattr_data, btrfs_send_a_xattr_name,
}
use btrsync.Sendstream.Attrs.{CmdAttrs}
use btrsync.Sendstream.Attrs.Getters.{
  get_atime, get_mtime, get_ctime, get_fallocate_mode, get_file_attr, get_file_offset, get_gid,
  get_mode64, get_path, get_size, get_uid, get_verity_algorithm, get_verity_block_size,
  get_verity_salt, get_verity_sig, get_xattr_data, get_xattr_name,
}
use btrsync.Receive.Context.{M, call}
use btrsync.Receive.Process.Ensure.{ensure_attrs, wrapped}
use btrsync.Receive.Receiver.{
  Receiver, utimes, chmod, chown, enable_verity, fallocate, fileattr, remove_xattr, set_xattr,
  truncate, update_extent,
}

module _ (R : Receiver) where
  unfoldable pub process_set_xattr : CmdAttrs → M R (Unit {0})
  process_set_xattr attrs = do
    ensure_attrs attrs (btrfs_send_a_path ∷ btrfs_send_a_xattr_name ∷ btrfs_send_a_xattr_data ∷ [])
    let path = get_path attrs
    let name = get_xattr_name attrs
    let content = get_xattr_data attrs
    call R (set_xattr path name content)

  unfoldable pub process_remove_xattr : CmdAttrs → M R (Unit {0})
  process_remove_xattr attrs = do
    ensure_attrs attrs (btrfs_send_a_path ∷ btrfs_send_a_xattr_name ∷ [])
    let path = get_path attrs
    let name = get_xattr_name attrs
    call R (remove_xattr path name)

  unfoldable pub process_truncate : CmdAttrs → M R (Unit {0})
  process_truncate attrs = do
    ensure_attrs attrs (btrfs_send_a_path ∷ btrfs_send_a_size ∷ [])
    let path = get_path attrs
    size ← lift (get_size attrs)
    call R (truncate path size)

  unfoldable pub process_chmod : CmdAttrs → M R (Unit {0})
  process_chmod attrs = do
    ensure_attrs attrs (btrfs_send_a_path ∷ btrfs_send_a_mode ∷ [])
    let path = get_path attrs
    mode ← lift (get_mode64 attrs)
    call R (chmod path mode)

  unfoldable pub process_chown : CmdAttrs → M R (Unit {0})
  process_chown attrs = do
    ensure_attrs attrs (btrfs_send_a_path ∷ btrfs_send_a_uid ∷ btrfs_send_a_gid ∷ [])
    let path = get_path attrs
    uid ← lift (get_uid attrs)
    gid ← lift (get_gid attrs)
    call R (chown path uid gid)

  unfoldable pub process_update_extent : CmdAttrs → M R (Unit {0})
  process_update_extent attrs = do
    ensure_attrs attrs (btrfs_send_a_path ∷ btrfs_send_a_file_offset ∷ btrfs_send_a_size ∷ [])
    let path = get_path attrs
    offset ← lift (get_file_offset attrs)
    size ← lift (get_size attrs)
    call R (update_extent path offset size)

  unfoldable pub process_enable_verity : CmdAttrs → M R (Unit {0})
  process_enable_verity attrs = do
    ensure_attrs attrs (
        btrfs_send_a_path ∷ btrfs_send_a_verity_algorithm ∷ btrfs_send_a_verity_block_size
        ∷ btrfs_send_a_verity_salt_data ∷ btrfs_send_a_verity_sig_data ∷ [])
    let path = get_path attrs
    block_size ← lift (get_verity_block_size attrs)
    let salt = get_verity_salt attrs
    let sig = get_verity_sig attrs
    algorithm ← lift (get_verity_algorithm attrs)
    call R (enable_verity path algorithm block_size salt sig)

  unfoldable pub process_fallocate : CmdAttrs → M R (Unit {0})
  process_fallocate attrs = do
    ensure_attrs attrs (
        btrfs_send_a_path ∷ btrfs_send_a_fallocate_mode ∷ btrfs_send_a_file_offset
        ∷ btrfs_send_a_size ∷ [])
    let path = get_path attrs
    mode ← lift (get_fallocate_mode attrs)
    offset ← lift (get_file_offset attrs)
    size ← lift (get_size attrs)
    call R (fallocate path mode offset size)

  unfoldable pub process_fileattr : CmdAttrs → M R (Unit {0})
  process_fileattr attrs = do
    ensure_attrs attrs (btrfs_send_a_path ∷ btrfs_send_a_fileattr ∷ [])
    let path = get_path attrs
    attr ← lift (get_file_attr attrs)
    call R (fileattr path attr)

  unfoldable pub process_utimes : CmdAttrs → M R (Unit {0})
  process_utimes attrs = do
    ensure_attrs attrs
        (btrfs_send_a_path ∷ btrfs_send_a_atime ∷ btrfs_send_a_mtime ∷ btrfs_send_a_ctime ∷ [])
    let path = get_path attrs
    atime ← lift (wrapped (get_atime attrs))
    mtime ← lift (wrapped (get_mtime attrs))
    ctime ← lift (wrapped (get_ctime attrs))
    call R (utimes path atime mtime ctime)
