-- ===== src/Receive/Process/Contents.antt =====
-- The process functions of pkg/receive/send_ops.go for the contents of files.
use btrsync.Common.{ℕ, [], ◌∷◌, Option, none, some, length, ltb, if◌then◌else◌}
use btrsync.Common.Action.{◌>>=◌, ◌>>◌, lift}
use btrsync.Common.Bytes.{Bytes}
use btrsync.Common.Outcome.{Outcome, ok, err}
use btrsync.Btrfs.EncodedWrite.{EncodedWriteOp, decompress}
use btrsync.Sendstream.Attributes.{
  btrfs_send_a_clone_ctransid, btrfs_send_a_clone_len, btrfs_send_a_clone_offset,
  btrfs_send_a_clone_path, btrfs_send_a_clone_uuid, btrfs_send_a_compression, btrfs_send_a_data,
  btrfs_send_a_encryption, btrfs_send_a_file_offset, btrfs_send_a_path,
  btrfs_send_a_unencoded_file_len, btrfs_send_a_unencoded_len, btrfs_send_a_unencoded_offset,
}
use btrsync.Sendstream.Attrs.{CmdAttrs, index}
use btrsync.Sendstream.Attrs.Getters.{
  get_clone_c_transid, get_clone_len, get_clone_offset, get_clone_path, get_compression_type,
  get_data, get_encryption_type, get_file_offset, get_path, get_unencoded_file_len,
  get_unencoded_len, get_unencoded_offset,
}
use btrsync.Receive.Context.{Libraries, ReceiveCtx, M, call}
use btrsync.Receive.Process.Ensure.{ensure_attrs, parsed_uuid}
use btrsync.Receive.Receiver.{
  Error, decompress_failed, is_not_supported, Receiver, write, encoded_write, clone,
}

-- The result of `Decompress`, an error wrapped.
unfoldable pub decompressed : Option Bytes → Outcome Error Bytes
decompressed none = err decompress_failed
decompressed (some b) = ok b

-- A field that is left 0 unless the attribute has bytes.
unfoldable pub optional_uint : Bytes → Outcome Error ℕ → Outcome Error ℕ
optional_uint d r = if ltb 0 (length d) then r else ok 0

module _ (R : Receiver) (L : Libraries) where
  unfoldable pub process_write : CmdAttrs → M R (Unit {0})
  process_write attrs = do
    ensure_attrs attrs (btrfs_send_a_path ∷ btrfs_send_a_file_offset ∷ btrfs_send_a_data ∷ [])
    let path = get_path attrs
    offset ← lift (get_file_offset attrs)
    let content = get_data attrs
    call R (write path offset content)

  -- What a wrapped `op.Decompress()` gives.
  unfoldable pub write_decompressed : Bytes → EncodedWriteOp → M R (Unit {0})
  write_decompressed path op = do
    content ← lift (decompressed (decompress L.codecs op))
    call R (write path op.offset content)

  -- After `EncodedWrite`: a receiver that does not support it is given the plain data.
  unfoldable pub write_fallback :
      Bytes
      → EncodedWriteOp
      → Outcome Error (Unit {0}) × ReceiveCtx R
      → Outcome Error (Unit {0}) × ReceiveCtx R
  unfolding write_decompressed
  write_fallback path op (err e, c) =
      if is_not_supported e then write_decompressed path op c else (err e, c)
  write_fallback path op (r, c) = (r, c)

  unfoldable pub encoded_write_op : Bytes → EncodedWriteOp → M R (Unit {0})
  unfolding write_decompressed write_fallback
  encoded_write_op path op c =
      if c.force_decompress
      then write_decompressed path op c
      else write_fallback path op (call R (encoded_write path op) c)

  unfoldable pub process_encoded_write : CmdAttrs → M R (Unit {0})
  unfolding encoded_write_op optional_uint
  process_encoded_write attrs = do
    ensure_attrs attrs (
        btrfs_send_a_path ∷ btrfs_send_a_file_offset ∷ btrfs_send_a_unencoded_file_len
        ∷ btrfs_send_a_unencoded_len ∷ btrfs_send_a_unencoded_offset ∷ btrfs_send_a_data ∷ [])
    let path = get_path attrs
    offset ← lift (get_file_offset attrs)
    file_length ← lift (get_unencoded_file_len attrs)
    unencoded_length ← lift (get_unencoded_len attrs)
    unencoded_offset ← lift (get_unencoded_offset attrs)
    compression ←
        lift (optional_uint (index attrs btrfs_send_a_compression) (get_compression_type attrs))
    encryption ←
        lift (optional_uint (index attrs btrfs_send_a_encryption) (get_encryption_type attrs))
    encoded_write_op path (record {
      offset = offset;
      data' = get_data attrs;
      unencoded_file_length = file_length;
      unencoded_length = unencoded_length;
      unencoded_offset = unencoded_offset;
      compression = compression;
      encryption = encryption;
    })

  unfoldable pub process_clone : CmdAttrs → M R (Unit {0})
  process_clone attrs = do
    ensure_attrs attrs (
        btrfs_send_a_path ∷ btrfs_send_a_file_offset ∷ btrfs_send_a_clone_len
        ∷ btrfs_send_a_clone_uuid ∷ btrfs_send_a_clone_ctransid ∷ btrfs_send_a_clone_path
        ∷ btrfs_send_a_clone_offset ∷ [])
    clone_uuid ← lift (parsed_uuid (L.uuid_from_bytes (index attrs btrfs_send_a_clone_uuid)))
    let path = get_path attrs
    offset ← lift (get_file_offset attrs)
    clone_len ← lift (get_clone_len attrs)
    clone_ctransid ← lift (get_clone_c_transid attrs)
    let clone_path = get_clone_path attrs
    clone_offset ← lift (get_clone_offset attrs)
    call R (clone path offset clone_len clone_uuid clone_ctransid clone_path clone_offset)
