-- ===== src/Receivers/SshDir.antt =====
-- pkg/receive/receivers/sshdir/sshdir.go: a receiver that writes files under a directory of another
-- host, with a command of its shell for each call.
pub mod Client
pub mod Texts
use btrsync.Common.{
  ℕ, ◌-◌, ◌^◌, Bool, Option, none, some, List, [], ◌∷◌, ◌++◌, length, ltb, if◌then◌else◌,
}
use btrsync.Common.Bytes.{Bytes}
use btrsync.Common.Outcome.{Outcome, ok, err, panic, stuck, bind_state}
use btrsync.Common.Action.{Action, ◌>>=◌, ◌>>◌, lift}
use btrsync.Common.Paths.{Paths}
use btrsync.Btrfs.EncodedWrite.{Codecs, EncodedWriteOp, decompress}
use btrsync.Sendstream.Attrs.{CmdAttrs}
use btrsync.Sendstream.Attrs.Values.{Uuid, Time}
use btrsync.Sendstream.Headers.{CmdHeader}
use btrsync.Receive.Receiver.{
  Error, failed, skip_command, not_supported, decompress_failed, Op, subvol, snapshot, mkfile,
  mkdir, mknod, mkfifo, mksock, symlink, rename, link, unlink, rmdir, write, encoded_write, clone,
  set_xattr, remove_xattr, truncate, chmod, chown, utimes, update_extent, enable_verity, fallocate,
  fileattr, finish_subvolume, Receiver, ReceiveContext,
}
use btrsync.Receivers.SshDir.Client.{Ssh, text}
use btrsync.Receivers.SshDir.Texts.{
  text_cat, text_echo, text_to_file, text_mkdir_p, text_touch, text_mkdir, text_mknod, text_space,
  text_mkfifo, text_python, text_python_end, text_ln_s, text_mv, text_ln, text_rm_rf, text_dd,
  text_dd_seek, text_dd_count, text_dd_end, text_setfattr_n, text_setfattr_v, text_setfattr_x,
  text_truncate_s, text_chmod, text_chown, text_colon, text_touch_t, text_fallocate_l,
  text_fallocate_o,
}

module _ (H : Ssh) (codecs : Codecs) (dest_path offset_directory : Bytes) where
  -- `sshReceiver`, without the fields that never change, and the world of the client.
  pub record SshReceiver : Type 0 where
    pub current_offset : ℕ
    pub world : H.World

  unfoldable pub new_ssh : H.World → SshReceiver
  new_ssh w = record { current_offset = 0; world = w }

  abbrev pub D : Type 0 → Type 0
  D = Action Error SshReceiver

  unfoldable pub on_world : {A : Type 0} → Action Error H.World A → D A
  on_world f n = let (r, w) = f n.world in (r, record n { world = w })

  unfoldable pub resolve_path : Bytes → Bytes
  resolve_path path = H.paths.join (dest_path ∷ path ∷ [])

  unfoldable pub current_offset_path : ReceiveContext → Outcome Error Bytes
  current_offset_path ctx = elim ctx.current_subvolume [
    | none ↦ panic
    | some info ↦ ok (H.paths.join (dest_path ∷ offset_directory ∷ H.uuid_string info.uuid ∷ []))
  ]

  -- `runCommandWithStdin`; the session is closed behind the command.
  unfoldable pub run_with_stdin : Bytes → Bytes → D Bytes
  unfolding on_world
  run_with_stdin cmd stdin = on_world (do
    session ← H.new_session
    (λ w. (let (r, w') = H.combined_output session cmd stdin w in (r, H.close_session session w'))))

  -- `runCommand`
  unfoldable pub run_command : List Bytes → D Bytes
  unfolding run_with_stdin
  run_command pieces = run_with_stdin (text pieces) []

  -- A command of which the output is not used.
  unfoldable pub run : List Bytes → D (Unit {0})
  unfolding run_command
  run pieces = do out ← run_command pieces; lift (ok tt)

  unfoldable pub keep_scanned : Option ℕ → D (Unit {0})
  keep_scanned none n = (err failed, n)
  keep_scanned (some offset) n = (ok tt, record n { current_offset = offset })

  unfoldable pub keep_output :
      Outcome Error Bytes × SshReceiver → Outcome Error (Unit {0}) × SshReceiver
  unfolding keep_scanned
  keep_output (ok out, n) = keep_scanned (H.scan_uint out) n
  keep_output (err e, n) = if H.says_missing e then (ok tt, n) else (err e, n)
  keep_output (panic, n) = (panic, n)
  keep_output (stuck, n) = (stuck, n)

  unfoldable pub read_current_offset : ReceiveContext → D (Unit {0})
  unfolding current_offset_path run_command keep_output
  read_current_offset ctx = do
    path ← lift (current_offset_path ctx)
    (λ n. keep_output (run_command (text_cat ∷ H.quoted path ∷ []) n))

  unfoldable pub write_offset : ReceiveContext → ℕ → D (Unit {0})
  unfolding current_offset_path run
  write_offset ctx offset = do
    path ← lift (current_offset_path ctx)
    run (text_echo ∷ H.decimal offset ∷ text_to_file ∷ H.quoted path ∷ [])

  -- `writeCurrentOffset` and `writeFinishedOffset`
  unfoldable pub write_current_offset : ReceiveContext → D (Unit {0})
  unfolding write_offset
  write_current_offset ctx = write_offset ctx ctx.current_offset

  unfoldable pub write_finished_offset : ReceiveContext → D (Unit {0})
  unfolding write_offset
  write_finished_offset ctx = write_offset ctx (2 ^ 64 - 2)

  unfoldable pub pre_op : ReceiveContext → CmdHeader → CmdAttrs → D (Unit {0})
  pre_op ctx hdr attrs n =
      if ltb ctx.current_offset n.current_offset then (err skip_command, n) else (ok tt, n)

  unfoldable pub post_op : ReceiveContext → CmdHeader → CmdAttrs → D (Unit {0})
  unfolding write_current_offset
  post_op ctx hdr attrs n =
      if ltb ctx.current_offset n.current_offset then (ok tt, n) else write_current_offset ctx n

  unfoldable pub subvol_op : ReceiveContext → D (Unit {0})
  unfolding current_offset_path run read_current_offset
  subvol_op ctx = do
    path ← lift (current_offset_path ctx)
    run (text_mkdir_p ∷ H.quoted (H.paths.dir path) ∷ [])
    read_current_offset ctx

  unfoldable pub write_op : Bytes → ℕ → Bytes → D (Unit {0})
  unfolding run_with_stdin resolve_path
  write_op path offset content = do
    out ←
        run_with_stdin
          (text (
            text_dd
            ∷ H.quoted (resolve_path path)
            ∷ text_dd_seek
            ∷ H.decimal offset
            ∷ text_dd_count
            ∷ H.decimal (length content)
            ∷ text_dd_end
            ∷ []))
          content
    lift (ok tt)

  unfoldable pub encoded_write_op : Bytes → EncodedWriteOp → D (Unit {0})
  unfolding decompress write_op
  encoded_write_op path op = elim (decompress codecs op) [
    | none ↦ lift (err decompress_failed)
    | some content ↦ write_op path op.offset content
  ]

  unfoldable pub chmod_op : Bytes → ℕ → D (Unit {0})
  unfolding run resolve_path
  chmod_op path mode =
      run (text_chmod ∷ H.octal mode ∷ text_space ∷ H.quoted (resolve_path path) ∷ [])

  -- `Fallocate` changes the mode of the file to that of the call.
  unfoldable pub fallocate_op : Bytes → ℕ → ℕ → ℕ → D (Unit {0})
  unfolding run resolve_path chmod_op
  fallocate_op path mode offset len = do
    run (
        text_fallocate_l
        ∷ H.decimal len
        ∷ text_fallocate_o
        ∷ H.decimal offset
        ∷ text_space
        ∷ H.quoted (resolve_path path)
        ∷ [])
    chmod_op (resolve_path path) mode

  unfoldable pub call : ReceiveContext → Op → D (Unit {0})
  unfolding subvol_op read_current_offset run resolve_path write_op encoded_write_op chmod_op
      fallocate_op write_finished_offset
  call ctx (subvol path uuid ctransid) = subvol_op ctx
  call ctx (snapshot path uuid ctransid clone_uuid clone_ctransid) = read_current_offset ctx
  call ctx (mkfile path ino) = run (text_touch ∷ H.quoted (resolve_path path) ∷ [])
  call ctx (mkdir path ino) = run (text_mkdir ∷ H.quoted (resolve_path path) ∷ [])
  call ctx (mknod path ino mode rdev) = run (
      text_mknod
      ∷ H.quoted (resolve_path path)
      ∷ text_space
      ∷ H.octal mode
      ∷ text_space
      ∷ H.decimal rdev
      ∷ [])
  call ctx (mkfifo path ino) = run (text_mkfifo ∷ H.quoted (resolve_path path) ∷ [])
  call ctx (mksock path ino) = run (text_python ∷ resolve_path path ∷ text_python_end ∷ [])
  call ctx (symlink path ino link_to) =
      run (text_ln_s ∷ H.quoted link_to ∷ text_space ∷ H.quoted (resolve_path path) ∷ [])
  call ctx (rename old_path new_path) = run (
      text_mv
      ∷ H.quoted (resolve_path old_path)
      ∷ text_space
      ∷ H.quoted (resolve_path new_path)
      ∷ [])
  call ctx (link path link_to) =
      run (text_ln ∷ H.quoted link_to ∷ text_space ∷ H.quoted (resolve_path path) ∷ [])
  call ctx (unlink path) = run (text_rm_rf ∷ H.quoted (resolve_path path) ∷ [])
  call ctx (rmdir path) = run (text_rm_rf ∷ H.quoted (resolve_path path) ∷ [])
  call ctx (write path offset content) = write_op path offset content
  call ctx (encoded_write path op) = encoded_write_op path op
  call ctx (clone path offset len clone_uuid clone_ctransid clone_path clone_offset) =
      lift (err not_supported)
  call ctx (set_xattr path name content) = run (
      text_setfattr_n
      ∷ name
      ∷ text_setfattr_v
      ∷ H.base64 content
      ∷ text_space
      ∷ H.quoted (resolve_path path)
      ∷ [])
  call ctx (remove_xattr path name) =
      run (text_setfattr_x ∷ name ∷ text_space ∷ H.quoted (resolve_path path) ∷ [])
  call ctx (truncate path size) =
      run (text_truncate_s ∷ H.decimal size ∷ text_space ∷ H.quoted (resolve_path path) ∷ [])
  call ctx (chmod path mode) = chmod_op path mode
  call ctx (chown path uid gid) = run (
      text_chown
      ∷ H.decimal uid
      ∷ text_colon
      ∷ H.decimal gid
      ∷ text_space
      ∷ H.quoted (resolve_path path)
      ∷ [])
  call ctx (utimes path atime mtime ctime) =
      run (text_touch_t ∷ H.touch_time mtime ∷ text_space ∷ H.quoted (resolve_path path) ∷ [])
  call ctx (update_extent path file_offset tmp_size) = lift (ok tt)
  call ctx (enable_verity path algorithm block_size salt sig) = lift (err not_supported)
  call ctx (fallocate path mode offset len) = fallocate_op path mode offset len
  call ctx (fileattr path attr) = lift (ok tt)
  call ctx finish_subvolume = write_finished_offset ctx

  abbrev pub ssh_receiver : Receiver
  ssh_receiver = record {
    State = SshReceiver;
    call = call;
    pre_op = some pre_op;
    post_op = some post_op;
  }
