-- ===== src/Receive/Attributes.antt =====
-- The process functions of pkg/receive/send_ops.go on two attribute maps that agree at each key.
use btrsync.Common.{
  ◌≡◌, refl, arith, some, List, [], ◌∷◌, All, ◌==◌, Bool-cases, Option-cases, inl, inr,
}
use mathlib.Core.Path.{subst}
use mathlib.Core.Option.{some-injective}
use btrsync.Common.Dict.{lookup}
use btrsync.Sendstream.Attributes.{SendAttribute}
use btrsync.Sendstream.Attrs.{CmdAttrs, index}
use btrsync.Sendstream.Attrs.Getters.{
  get_atime, get_clone_c_transid, get_clone_ctransid, get_clone_len, get_clone_offset,
  get_clone_path, get_clone_uuid, get_compression_type, get_ctime, get_ctransid, get_data,
  get_encryption_type, get_fallocate_mode, get_file_attr, get_file_offset, get_gid, get_ino,
  get_mode32, get_mode64, get_mtime, get_path, get_path_link, get_path_to, get_rdev, get_size,
  get_uid, get_unencoded_file_len, get_unencoded_len, get_unencoded_offset, get_uuid,
  get_verity_algorithm, get_verity_block_size, get_verity_salt, get_verity_sig, get_xattr_data,
  get_xattr_name,
}
use btrsync.Sendstream.Commands.{SendCommand}
use btrsync.Sendstream.Headers.{CmdHeader}
use btrsync.Sendstream.Scanner.RoundTrip.{SameMap}
use btrsync.Receive.Context.{Libraries, ReceiveCtx, M}
use btrsync.Receive.Loop.{run_process}
use btrsync.Receive.Process.{process_funcs}
use btrsync.Receive.Process.Ensure.{check_keys}
use btrsync.Receive.Process.Subvolumes.{process_subvol, process_snapshot}
use btrsync.Receive.Process.Contents.{process_write, process_encoded_write, process_clone}
use btrsync.Receive.Process.Nodes.{
  process_mkfile, process_mkdir, process_mknod, process_mkfifo, process_mksock, process_symlink,
  process_rename, process_link, process_unlink, process_rmdir,
}
use btrsync.Receive.Process.Metadata.{
  process_set_xattr, process_remove_xattr, process_truncate, process_chmod, process_chown,
  process_update_extent, process_enable_verity, process_fallocate, process_fileattr, process_utimes,
}
use btrsync.Receive.Receiver.{Receiver}

module _ (a b : CmdAttrs) (same : SameMap a b) where
  pub check_keys-same : (keys : List SendAttribute) → check_keys a keys ≡ check_keys b keys
  unfolding check_keys
  check_keys-same [] = refl
  check_keys-same (k ∷ keys) = ground (arith, same k, check_keys-same keys)

  pub index-same : (k : SendAttribute) → index a k ≡ index b k
  unfolding index
  index-same k = rw (index, same k)

  module _ (R : Receiver) (L : Libraries) (c : ReceiveCtx R) where
    process_subvol-same : process_subvol R L a c ≡ process_subvol R L b c
    unfolding process_subvol get_ctransid get_path get_uuid
    process_subvol-same = simp (check_keys-same, index-same)

    process_snapshot-same : process_snapshot R L a c ≡ process_snapshot R L b c
    unfolding process_snapshot get_clone_ctransid get_clone_uuid get_ctransid get_path get_uuid
    process_snapshot-same = simp (check_keys-same, index-same)

    process_mkfile-same : process_mkfile R a c ≡ process_mkfile R b c
    unfolding process_mkfile get_ino get_path
    process_mkfile-same = simp (check_keys-same, index-same)

    process_mkdir-same : process_mkdir R a c ≡ process_mkdir R b c
    unfolding process_mkdir get_ino get_path
    process_mkdir-same = simp (check_keys-same, index-same)

    process_mknod-same : process_mknod R a c ≡ process_mknod R b c
    unfolding process_mknod get_ino get_mode32 get_path get_rdev
    process_mknod-same = simp (check_keys-same, index-same)

    process_mkfifo-same : process_mkfifo R a c ≡ process_mkfifo R b c
    unfolding process_mkfifo get_ino get_path
    process_mkfifo-same = simp (check_keys-same, index-same)

    process_mksock-same : process_mksock R a c ≡ process_mksock R b c
    unfolding process_mksock get_ino get_path
    process_mksock-same = simp (check_keys-same, index-same)

    process_symlink-same : process_symlink R a c ≡ process_symlink R b c
    unfolding process_symlink get_ino get_path get_path_link
    process_symlink-same = simp (check_keys-same, index-same)

    process_rename-same : process_rename R a c ≡ process_rename R b c
    unfolding process_rename get_path get_path_to
    process_rename-same = simp (check_keys-same, index-same)

    process_link-same : process_link R a c ≡ process_link R b c
    unfolding process_link get_path get_path_link
    process_link-same = simp (check_keys-same, index-same)

    process_unlink-same : process_unlink R a c ≡ process_unlink R b c
    unfolding process_unlink get_path
    process_unlink-same = simp (check_keys-same, index-same)

    process_rmdir-same : process_rmdir R a c ≡ process_rmdir R b c
    unfolding process_rmdir get_path
    process_rmdir-same = simp (check_keys-same, index-same)

    process_write-same : process_write R L a c ≡ process_write R L b c
    unfolding process_write get_data get_file_offset get_path
    process_write-same = simp (check_keys-same, index-same)

    process_encoded_write-same : process_encoded_write R L a c ≡ process_encoded_write R L b c
    unfolding process_encoded_write get_compression_type get_data get_encryption_type
        get_file_offset get_path get_unencoded_file_len get_unencoded_len get_unencoded_offset
    process_encoded_write-same = simp (check_keys-same, index-same)

    process_clone-same : process_clone R L a c ≡ process_clone R L b c
    unfolding process_clone get_clone_c_transid get_clone_len get_clone_offset get_clone_path
        get_file_offset get_path
    process_clone-same = simp (check_keys-same, index-same)

    process_set_xattr-same : process_set_xattr R a c ≡ process_set_xattr R b c
    unfolding process_set_xattr get_path get_xattr_data get_xattr_name
    process_set_xattr-same = simp (check_keys-same, index-same)

    process_remove_xattr-same : process_remove_xattr R a c ≡ process_remove_xattr R b c
    unfolding process_remove_xattr get_path get_xattr_name
    process_remove_xattr-same = simp (check_keys-same, index-same)

    process_truncate-same : process_truncate R a c ≡ process_truncate R b c
    unfolding process_truncate get_path get_size
    process_truncate-same = simp (check_keys-same, index-same)

    process_chmod-same : process_chmod R a c ≡ process_chmod R b c
    unfolding process_chmod get_mode64 get_path
    process_chmod-same = simp (check_keys-same, index-same)

    process_chown-same : process_chown R a c ≡ process_chown R b c
    unfolding process_chown get_gid get_path get_uid
    process_chown-same = simp (check_keys-same, index-same)

    process_utimes-same : process_utimes R a c ≡ process_utimes R b c
    unfolding process_utimes get_atime get_ctime get_mtime get_path
    process_utimes-same = simp (check_keys-same, index-same)

    process_update_extent-same : process_update_extent R a c ≡ process_update_extent R b c
    unfolding process_update_extent get_file_offset get_path get_size
    process_update_extent-same = simp (check_keys-same, index-same)

    process_enable_verity-same : process_enable_verity R a c ≡ process_enable_verity R b c
    unfolding process_enable_verity get_path get_verity_algorithm get_verity_block_size
        get_verity_salt get_verity_sig
    process_enable_verity-same = simp (check_keys-same, index-same)

    process_fallocate-same : process_fallocate R a c ≡ process_fallocate R b c
    unfolding process_fallocate get_fallocate_mode get_file_offset get_path get_size
    process_fallocate-same = simp (check_keys-same, index-same)

    process_fileattr-same : process_fileattr R a c ≡ process_fileattr R b c
    unfolding process_fileattr get_file_attr get_path
    process_fileattr-same = simp (check_keys-same, index-same)

    -- A function of the table, at the two maps.
    abbrev Agrees : SendCommand × (CmdAttrs → M R (Unit {0})) → Type 0
    Agrees (cmd, f) = f a c ≡ f b c

    process_funcs-Agrees : All Agrees (process_funcs R L)
    unfolding process_funcs
    process_funcs-Agrees = (
      process_subvol-same,
      (
        process_snapshot-same,
        (
          process_mkfile-same,
          (
            process_mkdir-same,
            (
              process_mknod-same,
              (
                process_mkfifo-same,
                (
                  process_mksock-same,
                  (
                    process_symlink-same,
                    (
                      process_rename-same,
                      (
                        process_link-same,
                        (
                          process_unlink-same,
                          (
                            process_rmdir-same,
                            (
                              process_write-same,
                              (
                                process_encoded_write-same,
                                (
                                  process_clone-same,
                                  (
                                    process_set_xattr-same,
                                    (
                                      process_remove_xattr-same,
                                      (
                                        process_truncate-same,
                                        (
                                          process_chmod-same,
                                          (
                                            process_chown-same,
                                            (
                                              process_utimes-same,
                                              (
                                                process_update_extent-same,
                                                (
                                                  process_enable_verity-same,
                                                  (
                                                    process_fallocate-same,
                                                    (process_fileattr-same, tt),
                                                  ),
                                                ),
                                              ),
                                            ),
                                          ),
                                        ),
                                      ),
                                    ),
                                  ),
                                ),
                              ),
                            ),
                          ),
                        ),
                      ),
                    ),
                  ),
                ),
              ),
            ),
          ),
        ),
      ),
    )

    lookup-Agrees :
        (cmd : SendCommand) (fs : List (SendCommand × (CmdAttrs → M R (Unit {0}))))
        (f : CmdAttrs → M R (Unit {0}))
        → All Agrees fs
        → lookup cmd fs ≡ some f
        → f a c ≡ f b c
    unfolding lookup
    lookup-Agrees cmd [] f h e = cc
    lookup-Agrees cmd ((j, g) ∷ fs) f (hg, h) e = elim (Bool-cases (j == cmd)) [
      | inl q ↦
          let p : some g ≡ some f = rw (q) at e in
          subst (λ (f : CmdAttrs → M R (Unit {0})). f a c ≡ f b c) (some-injective g f p) hg
      | inr q ↦ lookup-Agrees cmd fs f h (rw (q) at e)
    ]

    -- On two attribute maps with the same value at each key, the process function of any command
    -- does the same to any receiver and context, whatever the order of their entries.
    pub run_process-same : (cmd : CmdHeader) → run_process R L cmd a c ≡ run_process R L cmd b c
    unfolding run_process
    run_process-same cmd = elim (Option-cases (lookup cmd.cmd (process_funcs R L))) [
      | inl e ↦ rw (e, run_process)
      | inr (f, e) ↦
          rw (e, run_process) (lookup-Agrees cmd.cmd (process_funcs R L) f process_funcs-Agrees e)
    ]
