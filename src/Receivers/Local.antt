-- ===== src/Receivers/Local.antt =====
-- pkg/receive/receivers/local/local.go: a receiver that writes into subvolumes of a btrfs file system.
pub mod Parent
use btrsync.Common.{
  ℕ, zero, suc, ◌^◌, ◌%◌, Bool, true, false, not, ◌&&◌, ◌||◌, Option, none, some, List, [], ◌∷◌,
  ◌==◌, if◌then◌else◌,
}
use btrsync.Common.Bytes.{Bytes, bytes_eq}
use btrsync.Common.Int.{pos, int64}
use btrsync.Common.Outcome.{Outcome, ok, err, panic, stuck, bind_state}
use btrsync.Common.Action.{Action, ◌>>=◌, ◌>>◌, lift}
use btrsync.Common.Paths.{has_prefix}
use btrsync.Btrfs.EncodedWrite.{EncodedWriteOp}
use btrsync.Btrfs.RootInfo.{RootInfo}
use btrsync.Btrfs.RootTree.{Root, Heap, Info, info_at, nil_uuid, deref, or_child}
use btrsync.Btrfs.RootTree.Iterate.{IterError, stop_tree_iteration, I, Callback, post_order_iterate}
use btrsync.Sendstream.Attrs.Values.{Uuid}
use btrsync.Receive.Receiver.{
  Error, failed, Op, subvol, snapshot, mkfile, mkdir, mknod, mkfifo, mksock, symlink, rename, link,
  unlink, rmdir, write, encoded_write, clone, set_xattr, remove_xattr, truncate, chmod, chown,
  utimes, update_extent, enable_verity, fallocate, fileattr, finish_subvolume, Receiver,
  ReceiveContext, ReceivingSubvolume,
}
use btrsync.Receivers.Os.{
  Os, sys_mkdir_all, sys_mkdir, sys_mkfifo, sys_mknod, sys_symlink, sys_rename, sys_link,
  sys_remove, sys_remove_all, sys_setxattr, sys_removexattr, sys_truncate, sys_chmod, sys_chown,
  sys_chtimes,
}
use btrsync.Receivers.Files.{W, create_file, create_socket, write_file, fallocate_file, touch_file}

-- What `BuildRBTree` gives: a tree on its heap, the `Stransid` of an item, and a bound of its depth.
pub record BuiltTree : Type 0 where
  pub root : Root
  pub heap : Heap
  pub stransid : ℕ → ℕ
  pub size : ℕ

-- The calls of pkg/btrfs that are ioctls, or read the mounts.
pub record Volumes (O : Os) : Type 0 where
  pub create_subvolume : Bytes → W O (Unit {0})
  pub create_snapshot : Bytes → Bytes → W O (Unit {0})
  pub sync_filesystem : Bytes → W O (Unit {0})
  pub write_encoded : Bytes → EncodedWriteOp → W O (Unit {0})
  pub clone_range : Bytes → Bytes → ℕ → ℕ → ℕ → W O (Unit {0})
  pub verity : Bytes → ℕ → ℕ → Bytes → Bytes → W O (Unit {0})
  pub find_root_mount : Bytes → W O Bytes
  pub build_tree : Bytes → W O BuiltTree
  pub search_received : Bytes → Uuid → W O RootInfo
  pub is_read_only : Bytes → W O Bool
  pub set_read_only : Bytes → Bool → W O (Unit {0})
  pub set_received : Bytes → Uuid → ℕ → W O (Unit {0})

-- The heap, and the info that the search of `Snapshot` found.
pub record Searching : Type 0 where
  pub heap : Heap
  pub parent : Option ℕ

abbrev pub heap_of : Searching → Heap
heap_of s = s.heap

unfoldable pub is_nil_uuid : Uuid → Bool
is_nil_uuid uu = bytes_eq uu nil_uuid

unfoldable pub match_parent : (ℕ → ℕ) → Uuid → ℕ → ℕ → Info → I heap_of (Option IterError)
unfolding is_nil_uuid deref
match_parent stransid clone_uuid clone_ctransid i info =
    if info.fields.deleted || is_nil_uuid info.fields.received_uuid then lift (ok none) else (do
      item ← lift (deref info.item)
      (if bytes_eq info.fields.received_uuid clone_uuid && stransid item == clone_ctransid
          then (λ s. (ok (some stop_tree_iteration), record s { parent = some i }))
          else lift (ok none)))

unfoldable pub parent_visit : (ℕ → ℕ) → Uuid → ℕ → Callback heap_of
unfolding info_at match_parent
parent_visit stransid clone_uuid clone_ctransid i last = do
  info ← (λ s. ((info_at i s.heap).0, s))
  match_parent stransid clone_uuid clone_ctransid i info

-- The info of the parent that was found, if there is one.
unfoldable pub found_info : Heap → Option ℕ → Outcome Error RootInfo
found_info h none = err failed
found_info h (some i) = elim (h.infos i) [ none ↦ panic | some info ↦ ok info.fields ]

unfoldable pub parent_info :
    Outcome (Unit {0}) (Option IterError) × Searching → Outcome Error RootInfo
unfolding found_info
parent_info (ok e, s) = found_info s.heap s.parent
parent_info (err e, s) = panic
parent_info (panic, s) = panic
parent_info (stuck, s) = stuck

unfoldable pub find_parent : BuiltTree → Uuid → ℕ → Outcome Error RootInfo
unfolding post_order_iterate parent_visit parent_info
find_parent tree clone_uuid clone_ctransid = parent_info (
    post_order_iterate heap_of tree.size tree.root
      (parent_visit tree.stransid clone_uuid clone_ctransid)
      (record { heap = tree.heap; parent = none }))

module _ (O : Os) (V : Volumes O) (dest_path : Bytes) where
  -- The current subvolume, through a pointer that may be nil.
  unfoldable pub current : ReceiveContext → Outcome Error ReceivingSubvolume
  current ctx = elim ctx.current_subvolume [ none ↦ panic | some info ↦ ok info ]

  -- `resolvePath`, and what follows with its result.
  unfoldable pub at_path : ReceiveContext → Bytes → (Bytes → W O (Unit {0})) → W O (Unit {0})
  unfolding current
  at_path ctx path f = do
    info ← lift (current ctx)
    f (O.paths.join (dest_path ∷ O.paths.join (info.path ∷ path ∷ []) ∷ []))

  unfoldable pub subvol_op : Bytes → W O (Unit {0})
  subvol_op path = do
    O.run (sys_mkdir_all dest_path 0o755)
    V.create_subvolume (O.paths.join (dest_path ∷ path ∷ []))

  -- The loop that builds the tree, with the tries after the first.
  unfoldable pub try_build :
      ℕ → Bytes → Outcome Error BuiltTree × O.World → Outcome Error BuiltTree × O.World
  try_build tries root (ok tree, w) = (ok tree, w)
  try_build zero root (err e, w) = (err e, w)
  try_build (suc tries) root (err e, w) = try_build tries root (V.build_tree root w)
  try_build tries root (panic, w) = (panic, w)
  try_build tries root (stuck, w) = (stuck, w)

  unfoldable pub snapshot_op : Bytes → Uuid → ℕ → W O (Unit {0})
  unfolding try_build find_parent
  snapshot_op path clone_uuid clone_ctransid = do
    root ← V.find_root_mount dest_path
    tree ← (λ w. try_build 3 root (V.build_tree root w))
    parent ← lift (find_parent tree clone_uuid clone_ctransid)
    let dest = O.paths.join (dest_path ∷ path ∷ [])
    let source =
        if has_prefix parent.full_path root
        then parent.full_path
        else O.paths.join (root ∷ parent.full_path ∷ [])
    V.create_snapshot source dest
    V.sync_filesystem dest

  unfoldable pub clone_source : ReceivingSubvolume → Uuid → W O Bytes
  clone_source info clone_uuid =
      if bytes_eq clone_uuid info.uuid
      then lift (ok (O.paths.join (dest_path ∷ info.path ∷ [])))
      else (do
        parent ← V.search_received dest_path clone_uuid
        lift (ok (O.paths.join (dest_path ∷ parent.path ∷ []))))

  unfoldable pub clone_op : ReceiveContext → Bytes → ℕ → ℕ → Uuid → Bytes → ℕ → W O (Unit {0})
  unfolding current clone_source at_path
  clone_op ctx path offset len clone_uuid clone_path clone_offset = do
    info ← lift (current ctx)
    source ← clone_source info clone_uuid
    at_path ctx path
        λ dest. V.clone_range (O.paths.join (source ∷ clone_path ∷ [])) dest clone_offset offset len

  unfoldable pub finish_op : ReceiveContext → W O (Unit {0})
  unfolding current
  finish_op ctx = do
    info ← lift (current ctx)
    let path = O.paths.join (dest_path ∷ info.path ∷ [])
    read_only ← V.is_read_only path
    (if read_only then V.set_read_only path false else lift (ok tt))
    V.set_received path info.uuid info.ctransid
    V.set_read_only path true
    V.sync_filesystem path

  unfoldable pub call : ReceiveContext → Op → W O (Unit {0})
  unfolding subvol_op snapshot_op at_path create_file create_socket write_file clone_op
      fallocate_file touch_file finish_op
  call ctx (subvol path uuid ctransid) = subvol_op path
  call ctx (snapshot path uuid ctransid clone_uuid clone_ctransid) =
      snapshot_op path clone_uuid clone_ctransid
  call ctx (mkfile path ino) = at_path ctx path λ p. create_file O p
  call ctx (mkdir path ino) = at_path ctx path λ p. O.run (sys_mkdir p 0o755)
  call ctx (mknod path ino mode rdev) = at_path ctx path λ p. O.run (sys_mknod p mode (int64 rdev))
  call ctx (mkfifo path ino) = at_path ctx path λ p. O.run (sys_mkfifo p 0o600)
  call ctx (mksock path ino) = at_path ctx path λ p. create_socket O p
  call ctx (symlink path ino link_to) =
      at_path ctx path λ p. at_path ctx link_to λ target. O.run (sys_symlink target p)
  call ctx (rename old_path new_path) =
      at_path ctx old_path λ old. at_path ctx new_path λ new. O.run (sys_rename old new)
  call ctx (link path link_to) =
      at_path ctx path λ p. at_path ctx link_to λ target. O.run (sys_link target p)
  call ctx (unlink path) = at_path ctx path λ p. O.run (sys_remove p)
  call ctx (rmdir path) = at_path ctx path λ p. O.run (sys_remove_all p)
  call ctx (write path offset content) = at_path ctx path λ p. write_file O p offset content
  call ctx (encoded_write path op) = at_path ctx path λ p. V.write_encoded p op
  call ctx (clone path offset len clone_uuid clone_ctransid clone_path clone_offset) =
      clone_op ctx path offset len clone_uuid clone_path clone_offset
  call ctx (set_xattr path name content) =
      at_path ctx path λ p. O.run (sys_setxattr p name content (pos 0))
  call ctx (remove_xattr path name) = at_path ctx path λ p. O.run (sys_removexattr p name)
  call ctx (truncate path size) = at_path ctx path λ p. O.run (sys_truncate p (int64 size))
  call ctx (chmod path mode) = at_path ctx path λ p. O.run (sys_chmod p (mode % 2 ^ 32))
  call ctx (chown path uid gid) = at_path ctx path λ p. O.run (sys_chown p (int64 uid) (int64 gid))
  call ctx (utimes path atime mtime ctime) = at_path ctx path λ p. O.run (sys_chtimes p atime mtime)
  call ctx (update_extent path file_offset tmp_size) = lift (ok tt)
  call ctx (enable_verity path algorithm block_size salt sig) =
      at_path ctx path λ p. V.verity p algorithm block_size salt sig
  call ctx (fallocate path mode offset len) =
      at_path ctx path λ p. fallocate_file O p mode offset len
  call ctx (fileattr path attr) = at_path ctx path λ p. touch_file O p
  call ctx finish_subvolume = finish_op ctx

  abbrev pub local_receiver : Receiver
  local_receiver = record { State = O.World; call = call; pre_op = none; post_op = none }
