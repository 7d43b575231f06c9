-- ===== src/Receive/Process/Nodes.antt =====
-- The process functions of pkg/receive/send_ops.go for files and directories that are made, renamed and removed.
use btrsync.Common.{[], ◌∷◌}
use btrsync.Common.Action.{◌>>=◌, ◌>>◌, lift}
use btrsync.Sendstream.Attributes.{
  btrfs_send_a_ino, btrfs_send_a_mode, btrfs_send_a_path, btrfs_send_a_path_link,
  btrfs_send_a_path_to, btrfs_send_a_rdev,
}
use btrsync.Sendstream.Attrs.{CmdAttrs}
use btrsync.Sendstream.Attrs.Getters.{
  get_ino, get_mode32, get_path, get_path_link, get_path_to, get_rdev,
}
use btrsync.Receive.Context.{M, call}
use btrsync.Receive.Process.Ensure.{ensure_attrs}
use btrsync.Receive.Receiver.{
  Receiver, link, mkdir, mkfifo, mkfile, mknod, mksock, rename, rmdir, symlink, unlink,
}

module _ (R : Receiver) where
  unfoldable pub process_mkfile : CmdAttrs → M R (Unit {0})
  process_mkfile attrs = do
    ensure_attrs attrs (btrfs_send_a_path ∷ btrfs_send_a_ino ∷ [])
    let path = get_path attrs
    ino ← lift (get_ino attrs)
    call R (mkfile path ino)

  unfoldable pub process_mkdir : CmdAttrs → M R (Unit {0})
  process_mkdir attrs = do
    ensure_attrs attrs (btrfs_send_a_path ∷ btrfs_send_a_ino ∷ [])
    let path = get_path attrs
    ino ← lift (get_ino attrs)
    call R (mkdir path ino)

  unfoldable pub process_mknod : CmdAttrs → M R (Unit {0})
  process_mknod attrs = do
    ensure_attrs attrs
        (btrfs_send_a_path ∷ btrfs_send_a_ino ∷ btrfs_send_a_mode ∷ btrfs_send_a_rdev ∷ [])
    let path = get_path attrs
    ino ← lift (get_ino attrs)
    mode ← lift (get_mode32 attrs)
    rdev ← lift (get_rdev attrs)
    call R (mknod path ino mode rdev)

  unfoldable pub process_mkfifo : CmdAttrs → M R (Unit {0})
  process_mkfifo attrs = do
    ensure_attrs attrs (btrfs_send_a_path ∷ btrfs_send_a_ino ∷ [])
    let path = get_path attrs
    ino ← lift (get_ino attrs)
    call R (mkfifo path ino)

  unfoldable pub process_mksock : CmdAttrs → M R (Unit {0})
  process_mksock attrs = do
    ensure_attrs attrs (btrfs_send_a_path ∷ btrfs_send_a_ino ∷ [])
    let path = get_path attrs
    ino ← lift (get_ino attrs)
    call R (mksock path ino)

  unfoldable pub process_symlink : CmdAttrs → M R (Unit {0})
  process_symlink attrs = do
    ensure_attrs attrs (btrfs_send_a_path ∷ btrfs_send_a_ino ∷ btrfs_send_a_path_link ∷ [])
    let path = get_path attrs
    ino ← lift (get_ino attrs)
    let path_link = get_path_link attrs
    call R (symlink path ino path_link)

  unfoldable pub process_rename : CmdAttrs → M R (Unit {0})
  process_rename attrs = do
    ensure_attrs attrs (btrfs_send_a_path ∷ btrfs_send_a_path_to ∷ [])
    let path = get_path attrs
    let path_to = get_path_to attrs
    call R (rename path path_to)

  unfoldable pub process_link : CmdAttrs → M R (Unit {0})
  process_link attrs = do
    ensure_attrs attrs (btrfs_send_a_path ∷ btrfs_send_a_path_link ∷ [])
    let path = get_path attrs
    let path_link = get_path_link attrs
    call R (link path path_link)

  unfoldable pub process_unlink : CmdAttrs → M R (Unit {0})
  process_unlink attrs = do
    ensure_attrs attrs (btrfs_send_a_path ∷ [])
    let path = get_path attrs
    call R (unlink path)

  unfoldable pub process_rmdir : CmdAttrs → M R (Unit {0})
  process_rmdir attrs = do
    ensure_attrs attrs (btrfs_send_a_path ∷ [])
    let path = get_path attrs
    call R (rmdir path)
