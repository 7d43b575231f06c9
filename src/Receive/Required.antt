-- ===== src/Receive/Required.antt =====
-- The process functions of pkg/receive/send_ops.go on a command that lacks an attribute.
use btrsync.Common.{
  ◌≡◌, refl, ◌==◌, none, some, List, [], ◌∷◌, ◌++◌, Option-cases, Bool-cases, inl, inr,
}
use mathlib.Core.Path.{subst}
use mathlib.Core.Option.{some-injective}
use btrsync.Common.Dict.{lookup}
use btrsync.Common.Outcome.{err}
use btrsync.Sendstream.Attributes.{
  SendAttribute, btrfs_send_a_atime, btrfs_send_a_clone_ctransid, btrfs_send_a_clone_len,
  btrfs_send_a_clone_offset, btrfs_send_a_clone_path, btrfs_send_a_clone_uuid, btrfs_send_a_ctime,
  btrfs_send_a_ctransid, btrfs_send_a_data, btrfs_send_a_fallocate_mode, btrfs_send_a_file_offset,
  btrfs_send_a_fileattr, btrfs_send_a_gid, btrfs_send_a_ino, btrfs_send_a_mode, btrfs_send_a_mtime,
  btrfs_send_a_path, btrfs_send_a_path_link, btrfs_send_a_path_to, btrfs_send_a_rdev,
  btrfs_send_a_size, btrfs_send_a_uid, btrfs_send_a_unencoded_file_len, btrfs_send_a_unencoded_len,
  btrfs_send_a_unencoded_offset, btrfs_send_a_uuid, btrfs_send_a_verity_algorithm,
  btrfs_send_a_verity_block_size, btrfs_send_a_verity_salt_data, btrfs_send_a_verity_sig_data,
  btrfs_send_a_xattr_data, btrfs_send_a_xattr_name,
}
use btrsync.Sendstream.Attrs.{CmdAttrs}
use btrsync.Sendstream.Commands.{
  SendCommand, btrfs_send_c_subvol, btrfs_send_c_snapshot, btrfs_send_c_mkfile, btrfs_send_c_mkdir,
  btrfs_send_c_mknod, btrfs_send_c_mkfifo, btrfs_send_c_mksock, btrfs_send_c_symlink,
  btrfs_send_c_rename, btrfs_send_c_link, btrfs_send_c_unlink, btrfs_send_c_rmdir,
  btrfs_send_c_write, btrfs_send_c_encoded_write, btrfs_send_c_clone, btrfs_send_c_set_xattr,
  btrfs_send_c_remove_xattr, btrfs_send_c_truncate, btrfs_send_c_chmod, btrfs_send_c_chown,
  btrfs_send_c_utimes, btrfs_send_c_update_extent, btrfs_send_c_enable_verity,
  btrfs_send_c_fallocate, btrfs_send_c_fileattr,
}
use btrsync.Sendstream.Headers.{CmdHeader}
use btrsync.Receive.Context.{Libraries, ReceiveCtx, M}
use btrsync.Receive.Loop.{run_process}
use btrsync.Receive.Process.{process_funcs}
use btrsync.Receive.Process.Ensure.{check_keys}
use btrsync.Receive.Process.{process_funcs}
use btrsync.Receive.Process.Subvolumes.{process_subvol, process_snapshot}
use btrsync.Receive.Process.Contents.{process_write, process_encoded_write, process_clone}
use btrsync.Receive.Process.Nodes.{
  process_mkfile, process_mkdir, process_mknod, process_mkfifo, process_mksock, process_symlink,
  process_rename, process_link, process_unlink, process_rmdir,
}
use btrsync.Receive.Process.Metadata.{
  process_set_xattr, process_remove_xattr, process_truncate, process_chmod, process_chown,
  process_update_extent, process_enable_verity, process_fallocate, process_fileattr, process_utimes,
}
use btrsync.Receive.Receiver.{Receiver, Error, missing_attribute}

-- The attributes without which a command cannot be applied.
unfoldable pub required : List (SendCommand × List SendAttribute)
required =
    (btrfs_send_c_subvol, btrfs_send_a_path ∷ btrfs_send_a_uuid ∷ btrfs_send_a_ctransid ∷ [])
    ∷ (
      btrfs_send_c_snapshot,
      btrfs_send_a_path ∷ btrfs_send_a_uuid ∷ btrfs_send_a_ctransid ∷ btrfs_send_a_clone_uuid
          ∷ btrfs_send_a_clone_ctransid ∷ [],
    )
    ∷ (btrfs_send_c_mkfile, btrfs_send_a_path ∷ btrfs_send_a_ino ∷ [])
    ∷ (btrfs_send_c_mkdir, btrfs_send_a_path ∷ btrfs_send_a_ino ∷ [])
    ∷ (
      btrfs_send_c_mknod,
      btrfs_send_a_path ∷ btrfs_send_a_ino ∷ btrfs_send_a_mode ∷ btrfs_send_a_rdev ∷ [],
    )
    ∷ (btrfs_send_c_mkfifo, btrfs_send_a_path ∷ btrfs_send_a_ino ∷ [])
    ∷ (btrfs_send_c_mksock, btrfs_send_a_path ∷ btrfs_send_a_ino ∷ [])
    ∷ (btrfs_send_c_symlink, btrfs_send_a_path ∷ btrfs_send_a_ino ∷ btrfs_send_a_path_link ∷ [])
    ∷ (btrfs_send_c_rename, btrfs_send_a_path ∷ btrfs_send_a_path_to ∷ [])
    ∷ (btrfs_send_c_link, btrfs_send_a_path ∷ btrfs_send_a_path_link ∷ [])
    ∷ (btrfs_send_c_unlink, btrfs_send_a_path ∷ [])
    ∷ (btrfs_send_c_rmdir, btrfs_send_a_path ∷ [])
    ∷ (btrfs_send_c_write, btrfs_send_a_path ∷ btrfs_send_a_file_offset ∷ btrfs_send_a_data ∷ [])
    ∷ (
      btrfs_send_c_encoded_write,
      btrfs_send_a_path ∷ btrfs_send_a_file_offset ∷ btrfs_send_a_unencoded_file_len
          ∷ btrfs_send_a_unencoded_len ∷ btrfs_send_a_unencoded_offset ∷ btrfs_send_a_data ∷ [],
    )
    ∷ (
      btrfs_send_c_clone,
      btrfs_send_a_path ∷ btrfs_send_a_file_offset ∷ btrfs_send_a_clone_len
          ∷ btrfs_send_a_clone_uuid ∷ btrfs_send_a_clone_ctransid ∷ btrfs_send_a_clone_path
          ∷ btrfs_send_a_clone_offset ∷ [],
    )
    ∷ (
      btrfs_send_c_set_xattr,
      btrfs_send_a_path ∷ btrfs_send_a_xattr_name ∷ btrfs_send_a_xattr_data ∷ [],
    )
    ∷ (btrfs_send_c_remove_xattr, btrfs_send_a_path ∷ btrfs_send_a_xattr_name ∷ [])
    ∷ (btrfs_send_c_truncate, btrfs_send_a_path ∷ btrfs_send_a_size ∷ [])
    ∷ (btrfs_send_c_chmod, btrfs_send_a_path ∷ btrfs_send_a_mode ∷ [])
    ∷ (btrfs_send_c_chown, btrfs_send_a_path ∷ btrfs_send_a_uid ∷ btrfs_send_a_gid ∷ [])
    ∷ (
      btrfs_send_c_utimes,
      btrfs_send_a_path ∷ btrfs_send_a_atime ∷ btrfs_send_a_mtime ∷ btrfs_send_a_ctime ∷ [],
    )
    ∷ (
      btrfs_send_c_update_extent,
      btrfs_send_a_path ∷ btrfs_send_a_file_offset ∷ btrfs_send_a_size ∷ [],
    )
    ∷ (
      btrfs_send_c_enable_verity,
      btrfs_send_a_path ∷ btrfs_send_a_verity_algorithm ∷ btrfs_send_a_verity_block_size
          ∷ btrfs_send_a_verity_salt_data ∷ btrfs_send_a_verity_sig_data ∷ [],
    )
    ∷ (
      btrfs_send_c_fallocate,
      btrfs_send_a_path ∷ btrfs_send_a_fallocate_mode ∷ btrfs_send_a_file_offset ∷ btrfs_send_a_size
          ∷ [],
    )
    ∷ (btrfs_send_c_fileattr, btrfs_send_a_path ∷ btrfs_send_a_fileattr ∷ [])
    ∷ []

-- The loop over the keys finds one that is missing.
check_keys-missing :
    (attrs : CmdAttrs) (k : SendAttribute) (before after : List SendAttribute)
    → lookup k attrs ≡ none
    → (k' : SendAttribute) × (check_keys attrs (before ++ k ∷ after) ≡ err (missing_attribute k'))
unfolding check_keys
check_keys-missing attrs k [] after h = (k, rw (check_keys, h))
check_keys-missing attrs k (j ∷ before) after h = elim (Option-cases (lookup j attrs)) [
  | inl e ↦ (j, rw (check_keys, e))
  | inr (v, e) ↦
      let (k', missing) = check_keys-missing attrs k before after h in
      (k', rw (check_keys, e) missing)
]

module _ (R : Receiver) (L : Libraries) where
  -- A process function looks for these attributes first.
  abbrev Guards : (CmdAttrs → M R (Unit {0})) → List SendAttribute → Type 0
  Guards f keys =
      (attrs : CmdAttrs) (c : ReceiveCtx R) (e : Error)
      → check_keys attrs keys ≡ err e
      → f attrs c ≡ (err e, c)

  abbrev GuardsAll :
      List (SendCommand × (CmdAttrs → M R (Unit {0})))
      → List (SendCommand × List SendAttribute)
      → Type 0
  GuardsAll [] [] = Unit
  GuardsAll [] (r ∷ rs) = ⊥
  GuardsAll (f ∷ fs) [] = ⊥
  GuardsAll ((cmd, f) ∷ fs) ((cmd', keys) ∷ rs) = (cmd ≡ cmd') × Guards f keys × GuardsAll fs rs

  process_subvol-Guards :
      Guards
        (process_subvol R L)
        (btrfs_send_a_path ∷ btrfs_send_a_uuid ∷ btrfs_send_a_ctransid ∷ [])
  unfolding process_subvol
  process_subvol-Guards attrs c e h = rw h

  process_snapshot-Guards : Guards (process_snapshot R L) (
      btrfs_send_a_path ∷ btrfs_send_a_uuid ∷ btrfs_send_a_ctransid ∷ btrfs_send_a_clone_uuid
      ∷ btrfs_send_a_clone_ctransid ∷ [])
  unfolding process_snapshot
  process_snapshot-Guards attrs c e h = rw h

  process_mkfile-Guards : Guards (process_mkfile R) (btrfs_send_a_path ∷ btrfs_send_a_ino ∷ [])
  unfolding process_mkfile
  process_mkfile-Guards attrs c e h = rw h

  process_mkdir-Guards : Guards (process_mkdir R) (btrfs_send_a_path ∷ btrfs_send_a_ino ∷ [])
  unfolding process_mkdir
  process_mkdir-Guards attrs c e h = rw h

  process_mknod-Guards :
      Guards
        (process_mknod R)
        (btrfs_send_a_path ∷ btrfs_send_a_ino ∷ btrfs_send_a_mode ∷ btrfs_send_a_rdev ∷ [])
  unfolding process_mknod
  process_mknod-Guards attrs c e h = rw h

  process_mkfifo-Guards : Guards (process_mkfifo R) (btrfs_send_a_path ∷ btrfs_send_a_ino ∷ [])
  unfolding process_mkfifo
  process_mkfifo-Guards attrs c e h = rw h

  process_mksock-Guards : Guards (process_mksock R) (btrfs_send_a_path ∷ btrfs_send_a_ino ∷ [])
  unfolding process_mksock
  process_mksock-Guards attrs c e h = rw h

  process_symlink-Guards :
      Guards
        (process_symlink R)
        (btrfs_send_a_path ∷ btrfs_send_a_ino ∷ btrfs_send_a_path_link ∷ [])
  unfolding process_symlink
  process_symlink-Guards attrs c e h = rw h

  process_rename-Guards : Guards (process_rename R) (btrfs_send_a_path ∷ btrfs_send_a_path_to ∷ [])
  unfolding process_rename
  process_rename-Guards attrs c e h = rw h

  process_link-Guards : Guards (process_link R) (btrfs_send_a_path ∷ btrfs_send_a_path_link ∷ [])
  unfolding process_link
  process_link-Guards attrs c e h = rw h

  process_unlink-Guards : Guards (process_unlink R) (btrfs_send_a_path ∷ [])
  unfolding process_unlink
  process_unlink-Guards attrs c e h = rw h

  process_rmdir-Guards : Guards (process_rmdir R) (btrfs_send_a_path ∷ [])
  unfolding process_rmdir
  process_rmdir-Guards attrs c e h = rw h

  process_write-Guards :
      Guards
        (process_write R L)
        (btrfs_send_a_path ∷ btrfs_send_a_file_offset ∷ btrfs_send_a_data ∷ [])
  unfolding process_write
  process_write-Guards attrs c e h = rw h

  process_encoded_write-Guards : Guards (process_encoded_write R L) (
      btrfs_send_a_path ∷ btrfs_send_a_file_offset ∷ btrfs_send_a_unencoded_file_len
      ∷ btrfs_send_a_unencoded_len ∷ btrfs_send_a_unencoded_offset ∷ btrfs_send_a_data ∷ [])
  unfolding process_encoded_write
  process_encoded_write-Guards attrs c e h = rw h

  process_clone-Guards : Guards (process_clone R L) (
      btrfs_send_a_path ∷ btrfs_send_a_file_offset ∷ btrfs_send_a_clone_len
      ∷ btrfs_send_a_clone_uuid ∷ btrfs_send_a_clone_ctransid ∷ btrfs_send_a_clone_path
      ∷ btrfs_send_a_clone_offset ∷ [])
  unfolding process_clone
  process_clone-Guards attrs c e h = rw h

  process_set_xattr-Guards :
      Guards
        (process_set_xattr R)
        (btrfs_send_a_path ∷ btrfs_send_a_xattr_name ∷ btrfs_send_a_xattr_data ∷ [])
  unfolding process_set_xattr
  process_set_xattr-Guards attrs c e h = rw h

  process_remove_xattr-Guards :
      Guards (process_remove_xattr R) (btrfs_send_a_path ∷ btrfs_send_a_xattr_name ∷ [])
  unfolding process_remove_xattr
  process_remove_xattr-Guards attrs c e h = rw h

  process_truncate-Guards : Guards (process_truncate R) (btrfs_send_a_path ∷ btrfs_send_a_size ∷ [])
  unfolding process_truncate
  process_truncate-Guards attrs c e h = rw h

  process_chmod-Guards : Guards (process_chmod R) (btrfs_send_a_path ∷ btrfs_send_a_mode ∷ [])
  unfolding process_chmod
  process_chmod-Guards attrs c e h = rw h

  process_chown-Guards :
      Guards (process_chown R) (btrfs_send_a_path ∷ btrfs_send_a_uid ∷ btrfs_send_a_gid ∷ [])
  unfolding process_chown
  process_chown-Guards attrs c e h = rw h

  process_utimes-Guards :
      Guards
        (process_utimes R)
        (btrfs_send_a_path ∷ btrfs_send_a_atime ∷ btrfs_send_a_mtime ∷ btrfs_send_a_ctime ∷ [])
  unfolding process_utimes
  process_utimes-Guards attrs c e h = rw h

  process_update_extent-Guards :
      Guards
        (process_update_extent R)
        (btrfs_send_a_path ∷ btrfs_send_a_file_offset ∷ btrfs_send_a_size ∷ [])
  unfolding process_update_extent
  process_update_extent-Guards attrs c e h = rw h

  process_enable_verity-Guards : Guards (process_enable_verity R) (
      btrfs_send_a_path ∷ btrfs_send_a_verity_algorithm ∷ btrfs_send_a_verity_block_size
      ∷ btrfs_send_a_verity_salt_data ∷ btrfs_send_a_verity_sig_data ∷ [])
  unfolding process_enable_verity
  process_enable_verity-Guards attrs c e h = rw h

  process_fallocate-Guards : Guards (process_fallocate R) (
      btrfs_send_a_path ∷ btrfs_send_a_fallocate_mode ∷ btrfs_send_a_file_offset ∷ btrfs_send_a_size
      ∷ [])
  unfolding process_fallocate
  process_fallocate-Guards attrs c e h = rw h

  process_fileattr-Guards :
      Guards (process_fileattr R) (btrfs_send_a_path ∷ btrfs_send_a_fileattr ∷ [])
  unfolding process_fileattr
  process_fileattr-Guards attrs c e h = rw h

  process_funcs-GuardsAll : GuardsAll (process_funcs R L) required
  unfolding process_funcs required
  process_funcs-GuardsAll = (
    refl,
    process_subvol-Guards,
    (
      refl,
      process_snapshot-Guards,
      (
        refl,
        process_mkfile-Guards,
        (
          refl,
          process_mkdir-Guards,
          (
            refl,
            process_mknod-Guards,
            (
              refl,
              process_mkfifo-Guards,
              (
                refl,
                process_mksock-Guards,
                (
                  refl,
                  process_symlink-Guards,
                  (
                    refl,
                    process_rename-Guards,
                    (
                      refl,
                      process_link-Guards,
                      (
                        refl,
                        process_unlink-Guards,
                        (
                          refl,
                          process_rmdir-Guards,
                          (
                            refl,
                            process_write-Guards,
                            (
                              refl,
                              process_encoded_write-Guards,
                              (
                                refl,
                                process_clone-Guards,
                                (
                                  refl,
                                  process_set_xattr-Guards,
                                  (
                                    refl,
                                    process_remove_xattr-Guards,
                                    (
                                      refl,
                                      process_truncate-Guards,
                                      (
                                        refl,
                                        process_chmod-Guards,
                                        (
                                          refl,
                                          process_chown-Guards,
                                          (
                                            refl,
                                            process_utimes-Guards,
                                            (
                                              refl,
                                              process_update_extent-Guards,
                                              (
                                                refl,
                                                process_enable_verity-Guards,
                                                (
                                                  refl,
                                                  process_fallocate-Guards,
                                                  (refl, process_fileattr-Guards, tt),
                                                ),
                                              ),
                                            ),
                                          ),
                                        ),
                                      ),
                                    ),
                                  ),
                                ),
                              ),
                            ),
                          ),
                        ),
                      ),
                    ),
                  ),
                ),
              ),
            ),
          ),
        ),
      ),
    ),
  )

  lookup-GuardsAll :
      (cmd : SendCommand) (fs : List (SendCommand × (CmdAttrs → M R (Unit {0}))))
      (rs : List (SendCommand × List SendAttribute)) (keys : List SendAttribute)
      → GuardsAll fs rs
      → lookup cmd rs ≡ some keys
      → (f : CmdAttrs → M R (Unit {0})) × (lookup cmd fs ≡ some f) × Guards f keys
  unfolding lookup
  lookup-GuardsAll cmd [] [] keys g e = cc
  lookup-GuardsAll cmd [] (r ∷ rs) keys g e = absurd g
  lookup-GuardsAll cmd (f ∷ fs) [] keys g e = absurd g
  lookup-GuardsAll cmd ((j, f) ∷ fs) ((j', ks) ∷ rs) keys (same, g, gs) e =
      elim (Bool-cases (j' == cmd)) [
        | inl q ↦
            let p : some ks ≡ some keys = rw (q) at e in
            (f, rw (same, q), subst (Guards f) (some-injective ks keys p) g)
        | inr q ↦
            let (f', found, g') = lookup-GuardsAll cmd fs rs keys gs (rw (q) at e) in
            (f', rw (same, q) found, g')
      ]

  run_process-Guards :
      (cmd : CmdHeader) (attrs : CmdAttrs) (c : ReceiveCtx R) (keys : List SendAttribute)
      (e : Error)
      → lookup cmd.cmd required ≡ some keys
      → check_keys attrs keys ≡ err e
      → run_process R L cmd attrs c ≡ (err e, c)
  unfolding run_process
  run_process-Guards cmd attrs c keys e known missing =
      let (f, found, guards) =
        lookup-GuardsAll cmd.cmd (process_funcs R L) required keys process_funcs-GuardsAll known in
      rw (run_process, found) (guards attrs c e missing)

  -- A command that lacks an attribute that its process function requires, before or behind others,
  -- gives the error of a missing attribute, and leaves the context and the receiver as they are.
  pub run_process-missing :
      (cmd : CmdHeader) (attrs : CmdAttrs) (c : ReceiveCtx R) (k : SendAttribute)
      (before after : List SendAttribute)
      → lookup cmd.cmd required ≡ some (before ++ k ∷ after)
      → lookup k attrs ≡ none
      → (k' : SendAttribute) × (run_process R L cmd attrs c ≡ (err (missing_attribute k'), c))
  run_process-missing cmd attrs c k before after known absent =
      let (k', missing) = check_keys-missing attrs k before after absent in
      (
        k',
        run_process-Guards cmd attrs c (before ++ k ∷ after) (missing_attribute k') known missing,
      )
