-- ===== src/Receivers/Directory.antt =====
-- pkg/receive/receivers/directory/directory.go: a receiver that writes files under a directory, and
-- keeps the offset of the stream in a file of its own to resume from.
use btrsync.Common.{ℕ, ◌-◌, ◌^◌, ◌%◌, Option, none, some, [], ◌∷◌, ltb, if◌then◌else◌}
use btrsync.Common.Bytes.{Bytes}
use btrsync.Common.Int.{pos, int64}
use btrsync.Common.Outcome.{Outcome, ok, err, panic, stuck, bind_state}
use btrsync.Common.Action.{Action, ◌>>=◌, ◌>>◌, lift}
use btrsync.Btrfs.EncodedWrite.{Codecs, EncodedWriteOp, decompress}
use btrsync.Sendstream.Attrs.{CmdAttrs}
use btrsync.Sendstream.Headers.{CmdHeader}
use btrsync.Receive.Receiver.{
  Error, Op, subvol, snapshot, mkfile, mkdir, mknod, mkfifo, mksock, symlink, rename, link, unlink,
  rmdir, write, encoded_write, clone, set_xattr, remove_xattr, truncate, chmod, chown, utimes,
  update_extent, enable_verity, fallocate, fileattr, finish_subvolume, Receiver, ReceiveContext,
  skip_command, not_supported, decompress_failed, is_not_exist,
}
use btrsync.Receivers.Os.{
  Os, read_only, create_read_write, sys_mkdir_all, sys_mkfifo, sys_mknod, sys_symlink, sys_rename,
  sys_link, sys_remove, sys_remove_all, sys_write, sys_setxattr, sys_removexattr, sys_truncate,
  sys_chmod, sys_chown, sys_chtimes,
}
use btrsync.Receivers.Files.{
  W, then_close, with_file, create_file, create_socket, write_file, fallocate_file, touch_file,
}

module _ (O : Os) (codecs : Codecs) (dest_path offset_directory : Bytes) where
  -- `directoryReceiver`, without the two fields that never change, and the world.
  pub record DirectoryReceiver : Type 0 where
    pub current_offset : ℕ
    pub world : O.World

  -- `New`
  unfoldable pub new_directory : O.World → DirectoryReceiver
  new_directory w = record { current_offset = 0; world = w }

  abbrev pub D : Type 0 → Type 0
  D = Action Error DirectoryReceiver

  -- An action on the world alone.
  unfoldable pub on_world : {A : Type 0} → W O A → D A
  on_world f n = let (r, w) = f n.world in (r, record n { world = w })

  unfoldable pub resolve_path : Bytes → Bytes
  resolve_path path = O.paths.join (dest_path ∷ path ∷ [])

  -- The path of the offset file; without a current subvolume the code reads through a nil pointer.
  unfoldable pub current_offset_path : ReceiveContext → Outcome Error Bytes
  current_offset_path ctx = elim ctx.current_subvolume [
    | none ↦ panic
    | some info ↦ ok (O.paths.join (dest_path ∷ offset_directory ∷ O.uuid_string info.uuid ∷ []))
  ]

  unfoldable pub pre_op : ReceiveContext → CmdHeader → CmdAttrs → D (Unit {0})
  pre_op ctx hdr attrs n =
      if ltb ctx.current_offset n.current_offset then (err skip_command, n) else (ok tt, n)

  -- The number is written to the start of the file of the offset.
  unfoldable pub write_offset : ReceiveContext → ℕ → D (Unit {0})
  unfolding current_offset_path on_world with_file
  write_offset ctx offset = do
    path ← lift (current_offset_path ctx)
    on_world
        (with_file O path create_read_write 0o600 λ fd. O.run (sys_write fd (O.decimal offset)))

  unfoldable pub post_op : ReceiveContext → CmdHeader → CmdAttrs → D (Unit {0})
  unfolding write_offset
  post_op ctx hdr attrs n =
      if ltb ctx.current_offset n.current_offset
      then (ok tt, n)
      else write_offset ctx ctx.current_offset n

  -- The saved offset, if there is a file of it.
  unfoldable pub saved_offset : Outcome Error ℕ × O.World → Outcome Error (Option ℕ) × O.World
  unfolding then_close
  saved_offset (ok fd, w) =
      then_close O fd (λ w'. bind_state (O.scan_uint fd w') (λ n w''. (ok (some n), w''))) w
  saved_offset (err e, w) = if is_not_exist e then (ok none, w) else (err e, w)
  saved_offset (panic, w) = (panic, w)
  saved_offset (stuck, w) = (stuck, w)

  unfoldable pub keep_offset : Option ℕ → D (Unit {0})
  keep_offset none n = (ok tt, n)
  keep_offset (some offset) n = (ok tt, record n { current_offset = offset })

  -- What `Subvol` and `Snapshot` share.
  unfoldable pub read_offset : Bytes → D (Unit {0})
  unfolding on_world saved_offset keep_offset
  read_offset path = do
    offset ← on_world (λ w. saved_offset (O.open_file path read_only 0 w))
    keep_offset offset

  unfoldable pub subvol_op : ReceiveContext → D (Unit {0})
  unfolding current_offset_path on_world read_offset
  subvol_op ctx = do
    path ← lift (current_offset_path ctx)
    on_world (O.run (sys_mkdir_all (O.paths.dir path) 0o755))
    read_offset path

  unfoldable pub snapshot_op : ReceiveContext → D (Unit {0})
  unfolding current_offset_path read_offset
  snapshot_op ctx = do path ← lift (current_offset_path ctx); read_offset path

  unfoldable pub encoded_write_op : Bytes → EncodedWriteOp → D (Unit {0})
  unfolding decompress on_world write_file resolve_path
  encoded_write_op path op = elim (decompress codecs op) [
    | none ↦ lift (err decompress_failed)
    | some content ↦ on_world (write_file O (resolve_path path) op.offset content)
  ]

  -- The largest `uint64` but one.
  abbrev pub finished_offset : ℕ
  finished_offset = 2 ^ 64 - 2

  unfoldable pub call : ReceiveContext → Op → D (Unit {0})
  unfolding subvol_op snapshot_op on_world resolve_path create_file create_socket write_file
      encoded_write_op fallocate_file touch_file write_offset
  call ctx (subvol path uuid ctransid) = subvol_op ctx
  call ctx (snapshot path uuid ctransid clone_uuid clone_ctransid) = snapshot_op ctx
  call ctx (mkfile path ino) = on_world (create_file O (resolve_path path))
  call ctx (mkdir path ino) = on_world (O.run (sys_mkdir_all (resolve_path path) 0o755))
  call ctx (mknod path ino mode rdev) =
      on_world (O.run (sys_mknod (resolve_path path) mode (int64 rdev)))
  call ctx (mkfifo path ino) = on_world (O.run (sys_mkfifo (resolve_path path) 0o600))
  call ctx (mksock path ino) = on_world (create_socket O (resolve_path path))
  call ctx (symlink path ino link_to) =
      on_world (O.run (sys_symlink (resolve_path link_to) (resolve_path path)))
  call ctx (rename old_path new_path) =
      on_world (O.run (sys_rename (resolve_path old_path) (resolve_path new_path)))
  call ctx (link path link_to) =
      on_world (O.run (sys_link (resolve_path link_to) (resolve_path path)))
  call ctx (unlink path) = on_world (O.run (sys_remove (resolve_path path)))
  call ctx (rmdir path) = on_world (O.run (sys_remove_all (resolve_path path)))
  call ctx (write path offset content) = on_world (write_file O (resolve_path path) offset content)
  call ctx (encoded_write path op) = encoded_write_op path op
  call ctx (clone path offset len clone_uuid clone_ctransid clone_path clone_offset) =
      lift (err not_supported)
  call ctx (set_xattr path name content) =
      on_world (O.run (sys_setxattr (resolve_path path) name content (pos 0)))
  call ctx (remove_xattr path name) = on_world (O.run (sys_removexattr (resolve_path path) name))
  call ctx (truncate path size) = on_world (O.run (sys_truncate (resolve_path path) (int64 size)))
  call ctx (chmod path mode) = on_world (O.run (sys_chmod (resolve_path path) (mode % 2 ^ 32)))
  call ctx (chown path uid gid) =
      on_world (O.run (sys_chown (resolve_path path) (int64 uid) (int64 gid)))
  call ctx (utimes path atime mtime ctime) =
      on_world (O.run (sys_chtimes (resolve_path path) atime mtime))
  call ctx (update_extent path file_offset tmp_size) = lift (ok tt)
  call ctx (enable_verity path algorithm block_size salt sig) = lift (err not_supported)
  call ctx (fallocate path mode offset len) =
      on_world (fallocate_file O (resolve_path path) mode offset len)
  call ctx (fileattr path attr) = on_world (touch_file O (resolve_path path))
  call ctx finish_subvolume = write_offset ctx finished_offset

  abbrev pub directory_receiver : Receiver
  directory_receiver = record {
    State = DirectoryReceiver;
    call = call;
    pre_op = some pre_op;
    post_op = some post_op;
  }
