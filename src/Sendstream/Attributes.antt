-- ===== src/Sendstream/Attributes.antt =====
-- The attributes of pkg/sendstream/commands.go: numbers of 16 bits.
use Prim.Native.Nat.{ℕ}

abbrev pub SendAttribute : Type 0
SendAttribute = ℕ

abbrev pub btrfs_send_a_unspec : SendAttribute
btrfs_send_a_unspec = 0

abbrev pub btrfs_send_a_uuid : SendAttribute
btrfs_send_a_uuid = 1

abbrev pub btrfs_send_a_ctransid : SendAttribute
btrfs_send_a_ctransid = 2

abbrev pub btrfs_send_a_ino : SendAttribute
btrfs_send_a_ino = 3

abbrev pub btrfs_send_a_size : SendAttribute
btrfs_send_a_size = 4

abbrev pub btrfs_send_a_mode : SendAttribute
btrfs_send_a_mode = 5

abbrev pub btrfs_send_a_uid : SendAttribute
btrfs_send_a_uid = 6

abbrev pub btrfs_send_a_gid : SendAttribute
btrfs_send_a_gid = 7

abbrev pub btrfs_send_a_rdev : SendAttribute
btrfs_send_a_rdev = 8

abbrev pub btrfs_send_a_ctime : SendAttribute
btrfs_send_a_ctime = 9

abbrev pub btrfs_send_a_mtime : SendAttribute
btrfs_send_a_mtime = 10

abbrev pub btrfs_send_a_atime : SendAttribute
btrfs_send_a_atime = 11

abbrev pub btrfs_send_a_otime : SendAttribute
btrfs_send_a_otime = 12

abbrev pub btrfs_send_a_xattr_name : SendAttribute
btrfs_send_a_xattr_name = 13

abbrev pub btrfs_send_a_xattr_data : SendAttribute
btrfs_send_a_xattr_data = 14

abbrev pub btrfs_send_a_path : SendAttribute
btrfs_send_a_path = 15

abbrev pub btrfs_send_a_path_to : SendAttribute
btrfs_send_a_path_to = 16

abbrev pub btrfs_send_a_path_link : SendAttribute
btrfs_send_a_path_link = 17

abbrev pub btrfs_send_a_file_offset : SendAttribute
btrfs_send_a_file_offset = 18

abbrev pub btrfs_send_a_data : SendAttribute
btrfs_send_a_data = 19

abbrev pub btrfs_send_a_clone_uuid : SendAttribute
btrfs_send_a_clone_uuid = 20

abbrev pub btrfs_send_a_clone_ctransid : SendAttribute
btrfs_send_a_clone_ctransid = 21

abbrev pub btrfs_send_a_clone_path : SendAttribute
btrfs_send_a_clone_path = 22

abbrev pub btrfs_send_a_clone_offset : SendAttribute
btrfs_send_a_clone_offset = 23

abbrev pub btrfs_send_a_clone_len : SendAttribute
btrfs_send_a_clone_len = 24

abbrev pub btrfs_send_a_max_v1 : SendAttribute
btrfs_send_a_max_v1 = 24

abbrev pub btrfs_send_a_fallocate_mode : SendAttribute
btrfs_send_a_fallocate_mode = 25

abbrev pub btrfs_send_a_fileattr : SendAttribute
btrfs_send_a_fileattr = 26

abbrev pub btrfs_send_a_unencoded_file_len : SendAttribute
btrfs_send_a_unencoded_file_len = 27

abbrev pub btrfs_send_a_unencoded_len : SendAttribute
btrfs_send_a_unencoded_len = 28

abbrev pub btrfs_send_a_unencoded_offset : SendAttribute
btrfs_send_a_unencoded_offset = 29

abbrev pub btrfs_send_a_compression : SendAttribute
btrfs_send_a_compression = 30

abbrev pub btrfs_send_a_encryption : SendAttribute
btrfs_send_a_encryption = 31

abbrev pub btrfs_send_a_max_v2 : SendAttribute
btrfs_send_a_max_v2 = 31

abbrev pub btrfs_send_a_verity_algorithm : SendAttribute
btrfs_send_a_verity_algorithm = 32

abbrev pub btrfs_send_a_verity_block_size : SendAttribute
btrfs_send_a_verity_block_size = 33

abbrev pub btrfs_send_a_verity_salt_data : SendAttribute
btrfs_send_a_verity_salt_data = 34

abbrev pub btrfs_send_a_verity_sig_data : SendAttribute
btrfs_send_a_verity_sig_data = 35

abbrev pub btrfs_send_a_max_v3 : SendAttribute
btrfs_send_a_max_v3 = 35

abbrev pub btrfs_send_a_max : SendAttribute
btrfs_send_a_max = 35
