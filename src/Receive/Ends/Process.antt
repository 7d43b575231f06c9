-- ===== src/Receive/Ends/Process.antt =====
-- Whether the process functions of pkg/receive/send_ops.go end.
use btrsync.Common.{true, false, some, List, [], ◌∷◌, Option-cases, inl, inr, All}
use mathlib.Core.Path.{subst}
use mathlib.Core.Option.{some-injective}
use btrsync.Sendstream.Attrs.Getters.{
  get_atime, get_clone_c_transid, get_clone_ctransid, get_clone_len, get_clone_offset,
  get_clone_path, get_clone_uuid, get_compression_type, get_ctime, get_ctransid, get_data,
  get_encryption_type, get_fallocate_mode, get_file_attr, get_file_offset, get_gid, get_ino,
  get_mode32, get_mode64, get_mtime, get_path, get_path_link, get_path_to, get_rdev, get_size,
  get_uid, get_unencoded_file_len, get_unencoded_len, get_unencoded_offset, get_uuid,
  get_verity_algorithm, get_verity_block_size, get_verity_salt, get_verity_sig, get_xattr_data,
  get_xattr_name,
}
use btrsync.Receive.Process.{process_funcs}
use btrsync.Receive.Process.Subvolumes.{process_subvol, process_snapshot}
use btrsync.Receive.Process.Contents.{process_write, process_encoded_write, process_clone}
use btrsync.Receive.Process.Nodes.{
  process_mkfile, process_mkdir, process_mknod, process_mkfifo, process_mksock, process_symlink,
  process_rename, process_link, process_unlink, process_rmdir,
}
use btrsync.Receive.Process.Metadata.{
  process_set_xattr, process_remove_xattr, process_truncate, process_chmod, process_chown,
  process_update_extent, process_enable_verity, process_fallocate, process_fileattr, process_utimes,
}
use btrsync.Common.{◌≡◌, ◌==◌, Bool-cases}
use btrsync.Common.Bytes.{Bytes}
use btrsync.Common.Dict.{lookup}
use btrsync.Common.Outcome.{Outcome, ok, err, panic, stuck}
use btrsync.Btrfs.EncodedWrite.{EncodedWriteOp}
use btrsync.Sendstream.Attrs.{CmdAttrs}
use btrsync.Sendstream.Commands.{SendCommand}
use btrsync.Sendstream.Headers.{CmdHeader}
use btrsync.Receive.Process.{process_funcs}
use btrsync.Receive.Loop.{run_process}
use btrsync.Receive.Context.{Libraries, ReceiveCtx, M, set_subvol}
use btrsync.Receive.Process.Subvolumes.{finish_current}
use btrsync.Receive.Process.Contents.{encoded_write_op, write_decompressed, write_fallback}
use btrsync.Receive.Receiver.{Receiver, Error, is_not_supported, encoded_write}
use btrsync.Receive.Ends.{
  ends_ok, ends_err, Answers, CallsEnd, Answers-bind_state, Answers-pair, get_uint-Ends,
  first_byte-Ends, read_timespec-Ends, wrapped-Ends, check_keys-Ends, parsed_uuid-Ends,
  decompressed-Ends, optional_uint-Ends, call-Answers,
}

module _ (R : Receiver) (L : Libraries) (calls : CallsEnd R) where
  ruleset ends = (
    Answers-bind_state, Answers-pair, get_uint-Ends, first_byte-Ends, read_timespec-Ends,
    wrapped-Ends, check_keys-Ends, parsed_uuid-Ends, decompressed-Ends, optional_uint-Ends,
    call-Answers, ends_ok,
  )

  finish_current-Answers : (c : ReceiveCtx R) → Answers (finish_current R L c)
  unfolding finish_current set_subvol
  finish_current-Answers c = elim (Option-cases c.current_subvol_info) [
    | inl e ↦ rw (finish_current, e) (record { ends = ends_ok tt })
    | inr (i, e) ↦ rw (finish_current, e) (search ends)
  ]

  write_decompressed-Answers :
      (path : Bytes) (op : EncodedWriteOp) (c : ReceiveCtx R)
      → Answers (write_decompressed R L path op c)
  unfolding write_decompressed
  write_decompressed-Answers path op c = search ends

  write_fallback-Answers :
      (path : Bytes) (op : EncodedWriteOp) (r : Outcome Error (Unit {0})) (c : ReceiveCtx R)
      → Answers (r, c)
      → Answers (write_fallback R L path op (r, c))
  unfolding write_fallback
  write_fallback-Answers path op (err e) c h = elim (Bool-cases (is_not_supported e)) [
    | inl q ↦ rw q (write_decompressed-Answers path op c)
    | inr q ↦ rw q h
  ]
  write_fallback-Answers path op (ok u) c h = h
  write_fallback-Answers path op panic c h = h
  write_fallback-Answers path op stuck c h = h

  encoded_write_op-Answers :
      (path : Bytes) (op : EncodedWriteOp) (c : ReceiveCtx R)
      → Answers (encoded_write_op R L path op c)
  unfolding encoded_write_op
  encoded_write_op-Answers path op c = elim (Bool-cases c.force_decompress) [
    | inl e ↦
        rw (encoded_write_op, e)
          (write_decompressed-Answers path op (record c { force_decompress = true }))
    | inr e ↦
        rw (encoded_write_op, e)
          (write_fallback-Answers path op _ _ (
            call-Answers R L calls (encoded_write path op) (record c { force_decompress = false })))
  ]

  process_subvol-Answers :
      (attrs : CmdAttrs) (c : ReceiveCtx R) → Answers (process_subvol R L attrs c)
  unfolding process_subvol get_ctransid get_path get_uuid set_subvol
  process_subvol-Answers attrs c = search (ends, finish_current-Answers) depth 16

  process_snapshot-Answers :
      (attrs : CmdAttrs) (c : ReceiveCtx R) → Answers (process_snapshot R L attrs c)
  unfolding process_snapshot get_clone_ctransid get_clone_uuid get_ctransid get_path get_uuid
      set_subvol
  process_snapshot-Answers attrs c = search (ends, finish_current-Answers) depth 16

  process_mkfile-Answers :
      (attrs : CmdAttrs) (c : ReceiveCtx R) → Answers (process_mkfile R attrs c)
  unfolding process_mkfile get_ino get_path
  process_mkfile-Answers attrs c = search ends

  process_mkdir-Answers : (attrs : CmdAttrs) (c : ReceiveCtx R) → Answers (process_mkdir R attrs c)
  unfolding process_mkdir get_ino get_path
  process_mkdir-Answers attrs c = search ends

  process_mknod-Answers : (attrs : CmdAttrs) (c : ReceiveCtx R) → Answers (process_mknod R attrs c)
  unfolding process_mknod get_ino get_mode32 get_path get_rdev
  process_mknod-Answers attrs c = search ends depth 16

  process_mkfifo-Answers :
      (attrs : CmdAttrs) (c : ReceiveCtx R) → Answers (process_mkfifo R attrs c)
  unfolding process_mkfifo get_ino get_path
  process_mkfifo-Answers attrs c = search ends

  process_mksock-Answers :
      (attrs : CmdAttrs) (c : ReceiveCtx R) → Answers (process_mksock R attrs c)
  unfolding process_mksock get_ino get_path
  process_mksock-Answers attrs c = search ends

  process_symlink-Answers :
      (attrs : CmdAttrs) (c : ReceiveCtx R) → Answers (process_symlink R attrs c)
  unfolding process_symlink get_ino get_path get_path_link
  process_symlink-Answers attrs c = search ends

  process_rename-Answers :
      (attrs : CmdAttrs) (c : ReceiveCtx R) → Answers (process_rename R attrs c)
  unfolding process_rename get_path get_path_to
  process_rename-Answers attrs c = search ends

  process_link-Answers : (attrs : CmdAttrs) (c : ReceiveCtx R) → Answers (process_link R attrs c)
  unfolding process_link get_path get_path_link
  process_link-Answers attrs c = search ends

  process_unlink-Answers :
      (attrs : CmdAttrs) (c : ReceiveCtx R) → Answers (process_unlink R attrs c)
  unfolding process_unlink get_path
  process_unlink-Answers attrs c = search ends

  process_rmdir-Answers : (attrs : CmdAttrs) (c : ReceiveCtx R) → Answers (process_rmdir R attrs c)
  unfolding process_rmdir get_path
  process_rmdir-Answers attrs c = search ends

  process_write-Answers :
      (attrs : CmdAttrs) (c : ReceiveCtx R) → Answers (process_write R L attrs c)
  unfolding process_write get_data get_file_offset get_path
  process_write-Answers attrs c = search ends

  process_encoded_write-Answers :
      (attrs : CmdAttrs) (c : ReceiveCtx R) → Answers (process_encoded_write R L attrs c)
  unfolding process_encoded_write get_compression_type get_data get_encryption_type get_file_offset
      get_path get_unencoded_file_len get_unencoded_len get_unencoded_offset
  process_encoded_write-Answers attrs c = search (ends, encoded_write_op-Answers) depth 16

  process_clone-Answers :
      (attrs : CmdAttrs) (c : ReceiveCtx R) → Answers (process_clone R L attrs c)
  unfolding process_clone get_clone_c_transid get_clone_len get_clone_offset get_clone_path
      get_file_offset get_path
  process_clone-Answers attrs c = search ends depth 16

  process_set_xattr-Answers :
      (attrs : CmdAttrs) (c : ReceiveCtx R) → Answers (process_set_xattr R attrs c)
  unfolding process_set_xattr get_path get_xattr_data get_xattr_name
  process_set_xattr-Answers attrs c = search ends

  process_remove_xattr-Answers :
      (attrs : CmdAttrs) (c : ReceiveCtx R) → Answers (process_remove_xattr R attrs c)
  unfolding process_remove_xattr get_path get_xattr_name
  process_remove_xattr-Answers attrs c = search ends

  process_truncate-Answers :
      (attrs : CmdAttrs) (c : ReceiveCtx R) → Answers (process_truncate R attrs c)
  unfolding process_truncate get_path get_size
  process_truncate-Answers attrs c = search ends

  process_chmod-Answers : (attrs : CmdAttrs) (c : ReceiveCtx R) → Answers (process_chmod R attrs c)
  unfolding process_chmod get_mode64 get_path
  process_chmod-Answers attrs c = search ends

  process_chown-Answers : (attrs : CmdAttrs) (c : ReceiveCtx R) → Answers (process_chown R attrs c)
  unfolding process_chown get_gid get_path get_uid
  process_chown-Answers attrs c = search ends depth 16

  process_utimes-Answers :
      (attrs : CmdAttrs) (c : ReceiveCtx R) → Answers (process_utimes R attrs c)
  unfolding process_utimes get_atime get_ctime get_mtime get_path
  process_utimes-Answers attrs c = search ends depth 16

  process_update_extent-Answers :
      (attrs : CmdAttrs) (c : ReceiveCtx R) → Answers (process_update_extent R attrs c)
  unfolding process_update_extent get_file_offset get_path get_size
  process_update_extent-Answers attrs c = search ends depth 16

  process_enable_verity-Answers :
      (attrs : CmdAttrs) (c : ReceiveCtx R) → Answers (process_enable_verity R attrs c)
  unfolding process_enable_verity get_path get_verity_algorithm get_verity_block_size
      get_verity_salt get_verity_sig
  process_enable_verity-Answers attrs c = search ends depth 16

  process_fallocate-Answers :
      (attrs : CmdAttrs) (c : ReceiveCtx R) → Answers (process_fallocate R attrs c)
  unfolding process_fallocate get_fallocate_mode get_file_offset get_path get_size
  process_fallocate-Answers attrs c = search ends depth 16

  process_fileattr-Answers :
      (attrs : CmdAttrs) (c : ReceiveCtx R) → Answers (process_fileattr R attrs c)
  unfolding process_fileattr get_file_attr get_path
  process_fileattr-Answers attrs c = search ends

  abbrev EachAnswers : SendCommand × (CmdAttrs → M R (Unit {0})) → Type 0
  EachAnswers (cmd, f) = (attrs : CmdAttrs) (c : ReceiveCtx R) → Answers (f attrs c)

  process_funcs-Answers : All EachAnswers (process_funcs R L)
  unfolding process_funcs
  process_funcs-Answers = (
    process_subvol-Answers,
    (
      process_snapshot-Answers,
      (
        process_mkfile-Answers,
        (
          process_mkdir-Answers,
          (
            process_mknod-Answers,
            (
              process_mkfifo-Answers,
              (
                process_mksock-Answers,
                (
                  process_symlink-Answers,
                  (
                    process_rename-Answers,
                    (
                      process_link-Answers,
                      (
                        process_unlink-Answers,
                        (
                          process_rmdir-Answers,
                          (
                            process_write-Answers,
                            (
                              process_encoded_write-Answers,
                              (
                                process_clone-Answers,
                                (
                                  process_set_xattr-Answers,
                                  (
                                    process_remove_xattr-Answers,
                                    (
                                      process_truncate-Answers,
                                      (
                                        process_chmod-Answers,
                                        (
                                          process_chown-Answers,
                                          (
                                            process_utimes-Answers,
                                            (
                                              process_update_extent-Answers,
                                              (
                                                process_enable_verity-Answers,
                                                (
                                                  process_fallocate-Answers,
                                                  (process_fileattr-Answers, tt),
                                                ),
                                              ),
                                            ),
                                          ),
                                        ),
                                      ),
                                    ),
                                  ),
                                ),
                              ),
                            ),
                          ),
                        ),
                      ),
                    ),
                  ),
                ),
              ),
            ),
          ),
        ),
      ),
    ),
  )

  lookup-Answers :
      (cmd : SendCommand) (fs : List (SendCommand × (CmdAttrs → M R (Unit {0}))))
      (f : CmdAttrs → M R (Unit {0})) (attrs : CmdAttrs) (c : ReceiveCtx R)
      → All EachAnswers fs
      → lookup cmd fs ≡ some f
      → Answers (f attrs c)
  unfolding lookup
  lookup-Answers cmd [] f attrs c h e = cc
  lookup-Answers cmd ((j, g) ∷ fs) f attrs c (hg, h) e = elim (Bool-cases (j == cmd)) [
    | inl q ↦
        let p : some g ≡ some f = rw (q) at e in
        subst (λ (f : CmdAttrs → M R (Unit {0})). Answers (f attrs c)) (some-injective g f p)
          (hg attrs c)
    | inr q ↦ lookup-Answers cmd fs f attrs c h (rw (q) at e)
  ]

  -- The process function of any command ends on any attributes, if the calls of the receiver do.
  pub run_process-Answers :
      (cmd : CmdHeader) (attrs : CmdAttrs) (c : ReceiveCtx R)
      → Answers (run_process R L cmd attrs c)
  unfolding run_process
  run_process-Answers cmd attrs c = elim (Option-cases (lookup cmd.cmd (process_funcs R L))) [
    | inl e ↦ rw (e, run_process) (record { ends = ends_err _ })
    | inr (f, e) ↦
        rw (e, run_process)
          (lookup-Answers cmd.cmd (process_funcs R L) f attrs c process_funcs-Answers e)
  ]
