-- ===== src/Receive/Dispatch.antt =====
-- The process functions of pkg/receive/send_ops.go on the command that was built for a call.
use btrsync.Common.{
  ℕ, zero, suc, ◌/◌, ◌%◌, ◌^◌, ◌<◌, ◌≡◌, ◌≢◌, refl, ap, arith, some, [], ◌∷◌, ◌++◌, length, take,
  drop, append-nil, le→leb,
}
use btrsync.Common.Bytes.{put_uint, length-put_uint, le_value, le_value-put_uint}
use btrsync.Common.Dict.{lookup, insert}
use btrsync.Common.Outcome.{ok}
use btrsync.Sendstream.Attrs.{index}
use btrsync.Sendstream.Attrs.Getters.{
  get_atime, get_clone_c_transid, get_clone_ctransid, get_clone_len, get_clone_offset,
  get_clone_path, get_clone_uuid, get_compression_type, get_ctime, get_ctransid, get_data,
  get_encryption_type, get_fallocate_mode, get_file_attr, get_file_offset, get_gid, get_ino,
  get_mode32, get_mode64, get_mtime, get_path, get_path_link, get_path_to, get_rdev, get_size,
  get_uid, get_unencoded_file_len, get_unencoded_len, get_unencoded_offset, get_uuid,
  get_verity_algorithm, get_verity_block_size, get_verity_salt, get_verity_sig, get_xattr_data,
  get_xattr_name,
}
use btrsync.Sendstream.Attrs.Setters.{
  set_atime, set_clone_ctransid, set_clone_len, set_clone_offset, set_clone_path, set_clone_uuid,
  set_compression_type, set_ctime, set_ctransid, set_data, set_encryption_type, set_fallocate_mode,
  set_file_attr, set_file_offset, set_gid, set_ino, set_mode32, set_mode64, set_mtime, set_path,
  set_path_link, set_path_to, set_rdev, set_size, set_uid, set_unencoded_file_len,
  set_unencoded_len, set_unencoded_offset, set_uuid, set_verity_algorithm, set_verity_block_size,
  set_verity_salt, set_verity_sig, set_xattr_data, set_xattr_name,
}
use btrsync.Sendstream.Attrs.Values.{
  Uuid, Time, timespec, time, put_timespec, get_uint, read_timespec, first_byte,
}
use btrsync.Sendstream.Scanner.{read}
use btrsync.Sendstream.Scanner.Parse.{read-append}
use btrsync.Receive.Commands.{command_of, apply_op, IsOp, IsUuid, IsTime}
use btrsync.Receive.Context.{Libraries, UuidLaw, ReceiveCtx, receive_context, call, set_subvol}
use btrsync.Receive.Loop.{run_process}
use btrsync.Receive.Process.{process_funcs}
use btrsync.Receive.Process.Ensure.{check_keys, parsed_uuid, wrapped}
use btrsync.Receive.Process.{process_funcs}
use btrsync.Receive.Process.Subvolumes.{process_subvol, process_snapshot}
use btrsync.Receive.Process.Contents.{
  decompressed, process_write, process_encoded_write, process_clone,
}
use btrsync.Receive.Process.Nodes.{
  process_mkfile, process_mkdir, process_mknod, process_mkfifo, process_mksock, process_symlink,
  process_rename, process_link, process_unlink, process_rmdir,
}
use btrsync.Receive.Process.Metadata.{
  process_set_xattr, process_remove_xattr, process_truncate, process_chmod, process_chown,
  process_update_extent, process_enable_verity, process_fallocate, process_fileattr, process_utimes,
}
use btrsync.Receive.Receiver.{
  Op, subvol, snapshot, mkfile, mkdir, mknod, mkfifo, mksock, symlink, rename, link, unlink, rmdir,
  write, encoded_write, clone, set_xattr, remove_xattr, truncate, chmod, chown, utimes,
  update_extent, enable_verity, fallocate, fileattr, finish_subvolume, Receiver,
}

take-put_uint : (n v : ℕ) → take n (put_uint n v) ≡ put_uint n v
unfolding put_uint
take-put_uint zero v = refl
take-put_uint (suc n) v = ap (λ t. (v % 256) ∷ t) (take-put_uint n (v / 256))

get_uint-put_uint : {E : Type 0} (n v : ℕ) → v < 256 ^ n → get_uint {E = E} n (put_uint n v) ≡ ok v
unfolding get_uint
get_uint-put_uint n v h =
    rw (length-put_uint n v, le→leb n n (omega arith), take-put_uint n v, le_value-put_uint n v h)

pub get_u64 : {E : Type 0} (v : ℕ) → v < 2 ^ 64 → get_uint {E = E} 8 (put_uint 8 v) ≡ ok v
get_u64 v h = get_uint-put_uint 8 v h

get_u32 : {E : Type 0} (v : ℕ) → v < 2 ^ 32 → get_uint {E = E} 4 (put_uint 4 v) ≡ ok v
get_u32 v h = get_uint-put_uint 4 v h

-- A UUID that was stored is parsed again.
pub uuid_from_bytes-IsUuid :
    (L : Libraries) (law : UuidLaw L) (u : Uuid) → IsUuid u → L.uuid_from_bytes u ≡ some u
uuid_from_bytes-IsUuid L law u h = rw (law u, h)

put_timespec-sec : (a b : ℕ) → a < 2 ^ 64 → le_value (take 8 (put_uint 8 a ++ put_uint 4 b)) ≡ a
unfolding put_uint
put_timespec-sec a b h = le_value-put_uint 8 a h

put_timespec-nsec :
    (a b : ℕ) → b < 2 ^ 32 → le_value (take 4 (drop 8 (put_uint 8 a ++ put_uint 4 b))) ≡ b
unfolding put_uint
put_timespec-nsec a b h = le_value-put_uint 4 b h

length-timespec : (a b : ℕ) → length (put_uint 8 a ++ put_uint 4 b) ≡ 12
unfolding put_uint
length-timespec a b = refl

read-timespec :
    (a b : ℕ) → (read 12 (put_uint 8 a ++ put_uint 4 b)).0 ≡ ok (put_uint 8 a ++ put_uint 4 b)
read-timespec a b =
    let e = read-append 12 (put_uint 8 a ++ put_uint 4 b) [] (length-timespec a b) in
    ap (λ p. p.0) (rw (append-nil) at e)

-- A time that was stored is read again.
read_timespec-put_timespec :
    (t : Time) → IsTime t → read_timespec (put_timespec (timespec t)) ≡ ok t
unfolding read_timespec put_timespec timespec
read_timespec-put_timespec t h =
    rw
      (
        read-timespec (t.unix % 2 ^ 64) (t.nanosecond % 2 ^ 32),
        put_timespec-sec (t.unix % 2 ^ 64) (t.nanosecond % 2 ^ 32) (omega arith),
        put_timespec-nsec (t.unix % 2 ^ 64) (t.nanosecond % 2 ^ 32) (omega arith),
      )
      (unfold time in ground arith)

module _ (R : Receiver) (L : Libraries) (law : UuidLaw L) (len crc : ℕ) (c : ReceiveCtx R) where
  -- The call of a command's process function, on the attributes as they were built.
  abbrev Dispatched : Op → Type 0
  Dispatched op =
      run_process R L (record { len = len; cmd = (command_of op).0; crc = crc }) (command_of op).1 c
      ≡ apply_op R L op c

  -- For a call of a receiver other than FinishSubvolume whose arguments fit their Go types, the
  -- command that its constructor builds is processed as that call: subvolumes and snapshots finish
  -- the open subvolume and become the current one, an encoded write may fall back, and all else is
  -- one call with the same arguments; given that uuid.FromBytes copies 16 bytes and refuses any
  -- other number of them.
  pub run_process-command_of : (op : Op) → IsOp op → op ≢ finish_subvolume → Dispatched op
  unfolding run_process process_funcs command_of apply_op insert lookup index check_keys
      process_subvol process_snapshot process_write process_encoded_write process_clone
      process_mkfile process_mkdir process_mknod process_mkfifo process_mksock process_symlink
      process_rename process_link process_unlink process_rmdir process_set_xattr
      process_remove_xattr process_truncate process_chmod process_chown process_update_extent
      process_enable_verity process_fallocate process_fileattr process_utimes get_atime
      get_clone_c_transid get_clone_ctransid get_clone_len get_clone_offset get_clone_path
      get_clone_uuid get_compression_type get_ctime get_ctransid get_data get_encryption_type
      get_fallocate_mode get_file_attr get_file_offset get_gid get_ino get_mode32 get_mode64
      get_mtime get_path get_path_link get_path_to get_rdev get_size get_uid get_unencoded_file_len
      get_unencoded_len get_unencoded_offset get_uuid get_verity_algorithm get_verity_block_size
      get_verity_salt get_verity_sig get_xattr_data get_xattr_name set_atime set_clone_ctransid
      set_clone_len set_clone_offset set_clone_path set_clone_uuid set_compression_type set_ctime
      set_ctransid set_data set_encryption_type set_fallocate_mode set_file_attr set_file_offset
      set_gid set_ino set_mode32 set_mode64 set_mtime set_path set_path_link set_path_to set_rdev
      set_size set_uid set_unencoded_file_len set_unencoded_len set_unencoded_offset set_uuid
      set_verity_algorithm set_verity_block_size set_verity_salt set_verity_sig set_xattr_data
      set_xattr_name parsed_uuid set_subvol put_uint decompressed call wrapped receive_context
      first_byte
  run_process-command_of (subvol path u t) (hu, ht) ne =
      rw (get_u64 t ht, uuid_from_bytes-IsUuid L law u hu)
  run_process-command_of (snapshot path u t cu ct) (hu, ht, hcu, hct) ne = rw (
    uuid_from_bytes-IsUuid L law u hu,
    get_u64 t ht,
    uuid_from_bytes-IsUuid L law cu hcu,
    get_u64 ct hct,
  )
  run_process-command_of (mkfile path ino) h ne = rw (get_u64 ino h)
  run_process-command_of (mkdir path ino) h ne = rw (get_u64 ino h)
  run_process-command_of (mknod path ino mode rdev) (hi, hm, hr) ne =
      rw (get_u64 ino hi, get_u32 mode hm, get_u64 rdev hr)
  run_process-command_of (mkfifo path ino) h ne = rw (get_u64 ino h)
  run_process-command_of (mksock path ino) h ne = rw (get_u64 ino h)
  run_process-command_of (symlink path ino to) h ne = rw (get_u64 ino h)
  run_process-command_of (rename path to) h ne = refl
  run_process-command_of (link path to) h ne = refl
  run_process-command_of (unlink path) h ne = refl
  run_process-command_of (rmdir path) h ne = refl
  run_process-command_of (write path offset content) h ne = rw (get_u64 offset h)
  run_process-command_of (encoded_write path e) h ne = rw (
    get_u64 e.offset h.offset_fits,
    get_u64 e.unencoded_file_length h.file_length_fits,
    get_u64 e.unencoded_length h.length_fits,
    get_u64 e.unencoded_offset h.unencoded_offset_fits,
    get_u32 e.compression h.compression_fits,
    get_u32 e.encryption h.encryption_fits,
  )
  run_process-command_of (clone path offset len u t from from_offset) (ho, hl, hu, ht, hf) ne = rw (
    uuid_from_bytes-IsUuid L law u hu,
    get_u64 offset ho,
    get_u64 len hl,
    get_u64 t ht,
    get_u64 from_offset hf,
  )
  run_process-command_of (set_xattr path name value) h ne = refl
  run_process-command_of (remove_xattr path name) h ne = refl
  run_process-command_of (truncate path size) h ne = rw (get_u64 size h)
  run_process-command_of (chmod path mode) h ne = rw (get_u64 mode h)
  run_process-command_of (chown path uid gid) (hu, hg) ne = rw (get_u64 uid hu, get_u64 gid hg)
  run_process-command_of (utimes path atime mtime ctime) (ha, hm, hc) ne = rw (
    read_timespec-put_timespec atime ha,
    read_timespec-put_timespec mtime hm,
    read_timespec-put_timespec ctime hc,
  )
  run_process-command_of (update_extent path offset size) (ho, hs) ne =
      rw (get_u64 offset ho, get_u64 size hs)
  run_process-command_of (enable_verity path alg block_size salt sig) h ne =
      rw (get_u32 block_size h)
  run_process-command_of (fallocate path mode offset size) (hm, ho, hs) ne =
      rw (get_u32 mode hm, get_u64 offset ho, get_u64 size hs)
  run_process-command_of (fileattr path attr) h ne = rw (get_u32 attr h)
  run_process-command_of finish_subvolume h ne = absurd (ne refl)
