-- ===== src/Receive/Commands.antt =====
-- The calls of a receiver as commands: the constructor of pkg/sendstream/commands.go for each, and
-- what applying it means.
use btrsync.Common.{ℕ, ◌^◌, ◌<◌, ◌≡◌, some, length}
use btrsync.Common.Action.{◌>>◌}
use btrsync.Btrfs.EncodedWrite.{EncodedWriteOp}
use btrsync.Sendstream.Attrs.{CmdAttrs}
use btrsync.Sendstream.Attrs.Build.{
  new_subvol_command, new_snapshot_command, new_mkfile_command, new_mkdir_command,
  new_mknod_command, new_mkfifo_command, new_mksock_command, new_symlink_command,
  new_rename_command, new_link_command, new_unlink_command, new_rmdir_command, new_write_command,
  new_encoded_write_command, new_clone_command, new_set_xattr_command, new_remove_xattr_command,
  new_truncate_command, new_chmod_command, new_chown_command, new_utimes_command,
  new_update_extent_command, new_enable_verity_command, new_fallocate_command,
  new_file_attr_command, new_end_command,
}
use btrsync.Sendstream.Attrs.Values.{Uuid, Time}
use btrsync.Sendstream.Commands.{SendCommand}
use btrsync.Receive.Context.{Libraries, M, call, set_subvol}
use btrsync.Receive.Process.Contents.{encoded_write_op}
use btrsync.Receive.Process.Subvolumes.{finish_current}
use btrsync.Receive.Receiver.{
  Op, subvol, snapshot, mkfile, mkdir, mknod, mkfifo, mksock, symlink, rename, link, unlink, rmdir,
  write, encoded_write, clone, set_xattr, remove_xattr, truncate, chmod, chown, utimes,
  update_extent, enable_verity, fallocate, fileattr, finish_subvolume, Receiver,
}

-- The command that a sender writes for a call; the end of a subvolume is the command END.
unfoldable pub command_of : Op → SendCommand × CmdAttrs
unfolding new_subvol_command new_snapshot_command new_mkfile_command new_mkdir_command
    new_mknod_command new_mkfifo_command new_mksock_command new_symlink_command new_rename_command
    new_link_command new_unlink_command new_rmdir_command new_write_command
    new_encoded_write_command new_clone_command new_set_xattr_command new_remove_xattr_command
    new_truncate_command new_chmod_command new_chown_command new_utimes_command
    new_update_extent_command new_enable_verity_command new_fallocate_command new_file_attr_command
    new_end_command
command_of (subvol path uuid ctransid) = new_subvol_command path uuid ctransid
command_of (snapshot path uuid ctransid clone_uuid clone_ctransid) =
    new_snapshot_command path uuid ctransid clone_uuid clone_ctransid
command_of (mkfile path ino) = new_mkfile_command path ino
command_of (mkdir path ino) = new_mkdir_command path ino
command_of (mknod path ino mode rdev) = new_mknod_command path ino mode rdev
command_of (mkfifo path ino) = new_mkfifo_command path ino
command_of (mksock path ino) = new_mksock_command path ino
command_of (symlink path ino to) = new_symlink_command path to ino
command_of (rename path to) = new_rename_command path to
command_of (link path to) = new_link_command path to
command_of (unlink path) = new_unlink_command path
command_of (rmdir path) = new_rmdir_command path
command_of (write path offset content) = new_write_command path offset content
command_of (encoded_write path op) = new_encoded_write_command path op
command_of (clone path offset len uuid ctransid from from_offset) =
    new_clone_command path offset len uuid ctransid from from_offset
command_of (set_xattr path name value) = new_set_xattr_command path name value
command_of (remove_xattr path name) = new_remove_xattr_command path name
command_of (truncate path size) = new_truncate_command path size
command_of (chmod path mode) = new_chmod_command path mode
command_of (chown path uid gid) = new_chown_command path uid gid
command_of (utimes path atime mtime ctime) = new_utimes_command path atime mtime ctime
command_of (update_extent path offset size) = new_update_extent_command path offset size
command_of (enable_verity path alg block_size salt sig) =
    new_enable_verity_command path alg block_size salt sig
command_of (fallocate path mode offset size) = new_fallocate_command path mode offset size
command_of (fileattr path attr) = new_file_attr_command path attr
command_of finish_subvolume = new_end_command

abbrev pub IsU64 : ℕ → Type 0
IsU64 n = n < 2 ^ 64

abbrev pub IsU32 : ℕ → Type 0
IsU32 n = n < 2 ^ 32

abbrev pub IsUuid : Uuid → Type 0
IsUuid u = length u ≡ 16

pub record IsTime (t : Time) : Type 0 where
  pub unix_fits : t.unix < 2 ^ 64
  pub nanosecond_fits : t.nanosecond < 1_000_000_000

pub record IsEncodedWriteOp (e : EncodedWriteOp) : Type 0 where
  pub offset_fits : IsU64 e.offset
  pub file_length_fits : IsU64 e.unencoded_file_length
  pub length_fits : IsU64 e.unencoded_length
  pub unencoded_offset_fits : IsU64 e.unencoded_offset
  pub compression_fits : IsU32 e.compression
  pub encryption_fits : IsU32 e.encryption

-- The arguments fit the Go types of the method.
abbrev pub IsOp : Op → Type 0
IsOp (subvol path uuid ctransid) = IsUuid uuid × IsU64 ctransid
IsOp (snapshot path uuid ctransid clone_uuid clone_ctransid) =
    IsUuid uuid × IsU64 ctransid × IsUuid clone_uuid × IsU64 clone_ctransid
IsOp (mkfile path ino) = IsU64 ino
IsOp (mkdir path ino) = IsU64 ino
IsOp (mknod path ino mode rdev) = IsU64 ino × IsU32 mode × IsU64 rdev
IsOp (mkfifo path ino) = IsU64 ino
IsOp (mksock path ino) = IsU64 ino
IsOp (symlink path ino to) = IsU64 ino
IsOp (write path offset content) = IsU64 offset
IsOp (encoded_write path op) = IsEncodedWriteOp op
IsOp (clone path offset len uuid ctransid from from_offset) =
    IsU64 offset × IsU64 len × IsUuid uuid × IsU64 ctransid × IsU64 from_offset
IsOp (truncate path size) = IsU64 size
IsOp (chmod path mode) = IsU64 mode
IsOp (chown path uid gid) = IsU64 uid × IsU64 gid
IsOp (utimes path atime mtime ctime) = IsTime atime × IsTime mtime × IsTime ctime
IsOp (update_extent path offset size) = IsU64 offset × IsU64 size
IsOp (enable_verity path alg block_size salt sig) = IsU32 block_size
IsOp (fallocate path mode offset size) = IsU32 mode × IsU64 offset × IsU64 size
IsOp (fileattr path attr) = IsU32 attr
IsOp _ = Unit

-- What it means to apply a call: a subvolume or a snapshot finishes the one that is open and becomes
-- the current one, an encoded write may fall back to a plain one, and all else goes to the receiver.
module _ (R : Receiver) (L : Libraries) where
  unfoldable pub apply_op : Op → M R (Unit {0})
  unfolding finish_current encoded_write_op
  apply_op (subvol path uuid ctransid) = do
    finish_current R L
    set_subvol R (some (record { path = path; uuid = uuid; ctransid = ctransid }))
    call R (subvol path uuid ctransid)
  apply_op (snapshot path uuid ctransid clone_uuid clone_ctransid) = do
    finish_current R L
    set_subvol R (some (record { path = path; uuid = uuid; ctransid = ctransid }))
    call R (snapshot path uuid ctransid clone_uuid clone_ctransid)
  apply_op (encoded_write path op) = encoded_write_op R L path op
  apply_op op = call R op
