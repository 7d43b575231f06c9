-- ===== src/Sendstream/Attrs/Getters.antt =====
-- The getters of `CmdAttrs`. A number is read from the first bytes of the attribute, and the call
-- panics where these are too few, as it does on a missing attribute.
use btrsync.Common.{ℕ, Option}
use btrsync.Common.Bytes.{Bytes}
use btrsync.Common.Outcome.{Outcome}
use btrsync.Sendstream.Attributes.{
  btrfs_send_a_atime, btrfs_send_a_clone_ctransid, btrfs_send_a_clone_len,
  btrfs_send_a_clone_offset, btrfs_send_a_clone_path, btrfs_send_a_clone_uuid,
  btrfs_send_a_compression, btrfs_send_a_ctime, btrfs_send_a_ctransid, btrfs_send_a_data,
  btrfs_send_a_encryption, btrfs_send_a_fallocate_mode, btrfs_send_a_file_offset,
  btrfs_send_a_fileattr, btrfs_send_a_gid, btrfs_send_a_ino, btrfs_send_a_mode, btrfs_send_a_mtime,
  btrfs_send_a_otime, btrfs_send_a_path, btrfs_send_a_path_link, btrfs_send_a_path_to,
  btrfs_send_a_rdev, btrfs_send_a_size, btrfs_send_a_uid, btrfs_send_a_unencoded_file_len,
  btrfs_send_a_unencoded_len, btrfs_send_a_unencoded_offset, btrfs_send_a_uuid,
  btrfs_send_a_verity_algorithm, btrfs_send_a_verity_block_size, btrfs_send_a_verity_salt_data,
  btrfs_send_a_verity_sig_data, btrfs_send_a_xattr_data, btrfs_send_a_xattr_name,
}
use btrsync.Sendstream.Attrs.{CmdAttrs, index}
use btrsync.Sendstream.Attrs.Values.{Uuid, Time, get_uint, first_byte, read_timespec}
use btrsync.Sendstream.Scanner.{Error}

unfoldable pub get_data : CmdAttrs → Bytes
get_data c = index c btrfs_send_a_data

unfoldable pub get_file_offset : {E : Type 0} → CmdAttrs → Outcome E ℕ
get_file_offset c = get_uint 8 (index c btrfs_send_a_file_offset)

unfoldable pub get_path : CmdAttrs → Bytes
get_path c = index c btrfs_send_a_path

unfoldable pub get_path_link : CmdAttrs → Bytes
get_path_link c = index c btrfs_send_a_path_link

unfoldable pub get_path_to : CmdAttrs → Bytes
get_path_to c = index c btrfs_send_a_path_to

unfoldable pub get_uuid : (Bytes → Option Uuid) → CmdAttrs → Option Uuid
get_uuid from_bytes c = from_bytes (index c btrfs_send_a_uuid)

unfoldable pub get_clone_uuid : (Bytes → Option Uuid) → CmdAttrs → Option Uuid
get_clone_uuid from_bytes c = from_bytes (index c btrfs_send_a_clone_uuid)

unfoldable pub get_ctransid : {E : Type 0} → CmdAttrs → Outcome E ℕ
get_ctransid c = get_uint 8 (index c btrfs_send_a_ctransid)

unfoldable pub get_clone_ctransid : {E : Type 0} → CmdAttrs → Outcome E ℕ
get_clone_ctransid c = get_uint 8 (index c btrfs_send_a_clone_ctransid)

unfoldable pub get_ino : {E : Type 0} → CmdAttrs → Outcome E ℕ
get_ino c = get_uint 8 (index c btrfs_send_a_ino)

unfoldable pub get_mode32 : {E : Type 0} → CmdAttrs → Outcome E ℕ
get_mode32 c = get_uint 4 (index c btrfs_send_a_mode)

unfoldable pub get_mode64 : {E : Type 0} → CmdAttrs → Outcome E ℕ
get_mode64 c = get_uint 8 (index c btrfs_send_a_mode)

unfoldable pub get_rdev : {E : Type 0} → CmdAttrs → Outcome E ℕ
get_rdev c = get_uint 8 (index c btrfs_send_a_rdev)

unfoldable pub get_unencoded_file_len : {E : Type 0} → CmdAttrs → Outcome E ℕ
get_unencoded_file_len c = get_uint 8 (index c btrfs_send_a_unencoded_file_len)

unfoldable pub get_unencoded_len : {E : Type 0} → CmdAttrs → Outcome E ℕ
get_unencoded_len c = get_uint 8 (index c btrfs_send_a_unencoded_len)

unfoldable pub get_unencoded_offset : {E : Type 0} → CmdAttrs → Outcome E ℕ
get_unencoded_offset c = get_uint 8 (index c btrfs_send_a_unencoded_offset)

unfoldable pub get_compression_type : {E : Type 0} → CmdAttrs → Outcome E ℕ
get_compression_type c = get_uint 4 (index c btrfs_send_a_compression)

unfoldable pub get_encryption_type : {E : Type 0} → CmdAttrs → Outcome E ℕ
get_encryption_type c = get_uint 4 (index c btrfs_send_a_encryption)

unfoldable pub get_clone_len : {E : Type 0} → CmdAttrs → Outcome E ℕ
get_clone_len c = get_uint 8 (index c btrfs_send_a_clone_len)

unfoldable pub get_clone_offset : {E : Type 0} → CmdAttrs → Outcome E ℕ
get_clone_offset c = get_uint 8 (index c btrfs_send_a_clone_offset)

unfoldable pub get_clone_path : CmdAttrs → Bytes
get_clone_path c = index c btrfs_send_a_clone_path

unfoldable pub get_clone_c_transid : {E : Type 0} → CmdAttrs → Outcome E ℕ
get_clone_c_transid c = get_uint 8 (index c btrfs_send_a_clone_ctransid)

unfoldable pub get_xattr_name : CmdAttrs → Bytes
get_xattr_name c = index c btrfs_send_a_xattr_name

unfoldable pub get_xattr_data : CmdAttrs → Bytes
get_xattr_data c = index c btrfs_send_a_xattr_data

unfoldable pub get_size : {E : Type 0} → CmdAttrs → Outcome E ℕ
get_size c = get_uint 8 (index c btrfs_send_a_size)

unfoldable pub get_uid : {E : Type 0} → CmdAttrs → Outcome E ℕ
get_uid c = get_uint 8 (index c btrfs_send_a_uid)

unfoldable pub get_gid : {E : Type 0} → CmdAttrs → Outcome E ℕ
get_gid c = get_uint 8 (index c btrfs_send_a_gid)

unfoldable pub get_atime : CmdAttrs → Outcome Error Time
get_atime c = read_timespec (index c btrfs_send_a_atime)

unfoldable pub get_mtime : CmdAttrs → Outcome Error Time
get_mtime c = read_timespec (index c btrfs_send_a_mtime)

unfoldable pub get_otime : CmdAttrs → Outcome Error Time
get_otime c = read_timespec (index c btrfs_send_a_otime)

unfoldable pub get_ctime : CmdAttrs → Outcome Error Time
get_ctime c = read_timespec (index c btrfs_send_a_ctime)

unfoldable pub get_verity_block_size : {E : Type 0} → CmdAttrs → Outcome E ℕ
get_verity_block_size c = get_uint 4 (index c btrfs_send_a_verity_block_size)

unfoldable pub get_verity_salt : CmdAttrs → Bytes
get_verity_salt c = index c btrfs_send_a_verity_salt_data

unfoldable pub get_verity_sig : CmdAttrs → Bytes
get_verity_sig c = index c btrfs_send_a_verity_sig_data

unfoldable pub get_verity_algorithm : {E : Type 0} → CmdAttrs → Outcome E ℕ
get_verity_algorithm c = first_byte (index c btrfs_send_a_verity_algorithm)

unfoldable pub get_fallocate_mode : {E : Type 0} → CmdAttrs → Outcome E ℕ
get_fallocate_mode c = get_uint 4 (index c btrfs_send_a_fallocate_mode)

unfoldable pub get_file_attr : {E : Type 0} → CmdAttrs → Outcome E ℕ
get_file_attr c = get_uint 4 (index c btrfs_send_a_fileattr)
