-- ===== src/Sendstream/Commands.antt =====
-- The commands of pkg/sendstream/commands.go: numbers of 16 bits.
use Prim.Native.Nat.{ℕ}

abbrev pub SendCommand : Type 0
SendCommand = ℕ

abbrev pub btrfs_send_c_unspec : SendCommand
btrfs_send_c_unspec = 0

abbrev pub btrfs_send_c_subvol : SendCommand
btrfs_send_c_subvol = 1

abbrev pub btrfs_send_c_snapshot : SendCommand
btrfs_send_c_snapshot = 2

abbrev pub btrfs_send_c_mkfile : SendCommand
btrfs_send_c_mkfile = 3

abbrev pub btrfs_send_c_mkdir : SendCommand
btrfs_send_c_mkdir = 4

abbrev pub btrfs_send_c_mknod : SendCommand
btrfs_send_c_mknod = 5

abbrev pub btrfs_send_c_mkfifo : SendCommand
btrfs_send_c_mkfifo = 6

abbrev pub btrfs_send_c_mksock : SendCommand
btrfs_send_c_mksock = 7

abbrev pub btrfs_send_c_symlink : SendCommand
btrfs_send_c_symlink = 8

abbrev pub btrfs_send_c_rename : SendCommand
btrfs_send_c_rename = 9

abbrev pub btrfs_send_c_link : SendCommand
btrfs_send_c_link = 10

abbrev pub btrfs_send_c_unlink : SendCommand
btrfs_send_c_unlink = 11

abbrev pub btrfs_send_c_rmdir : SendCommand
btrfs_send_c_rmdir = 12

abbrev pub btrfs_send_c_set_xattr : SendCommand
btrfs_send_c_set_xattr = 13

abbrev pub btrfs_send_c_remove_xattr : SendCommand
btrfs_send_c_remove_xattr = 14

abbrev pub btrfs_send_c_write : SendCommand
btrfs_send_c_write = 15

abbrev pub btrfs_send_c_clone : SendCommand
btrfs_send_c_clone = 16

abbrev pub btrfs_send_c_truncate : SendCommand
btrfs_send_c_truncate = 17

abbrev pub btrfs_send_c_chmod : SendCommand
btrfs_send_c_chmod = 18

abbrev pub btrfs_send_c_chown : SendCommand
btrfs_send_c_chown = 19

abbrev pub btrfs_send_c_utimes : SendCommand
btrfs_send_c_utimes = 20

abbrev pub btrfs_send_c_end : SendCommand
btrfs_send_c_end = 21

abbrev pub btrfs_send_c_update_extent : SendCommand
btrfs_send_c_update_extent = 22

abbrev pub btrfs_send_c_max_v1 : SendCommand
btrfs_send_c_max_v1 = 22

abbrev pub btrfs_send_c_fallocate : SendCommand
btrfs_send_c_fallocate = 23

abbrev pub btrfs_send_c_fileattr : SendCommand
btrfs_send_c_fileattr = 24

abbrev pub btrfs_send_c_encoded_write : SendCommand
btrfs_send_c_encoded_write = 25

abbrev pub btrfs_send_c_max_v2 : SendCommand
btrfs_send_c_max_v2 = 25

abbrev pub btrfs_send_c_enable_verity : SendCommand
btrfs_send_c_enable_verity = 26

abbrev pub btrfs_send_c_max_v3 : SendCommand
btrfs_send_c_max_v3 = 26

abbrev pub btrfs_send_c_max : SendCommand
btrfs_send_c_max = 26
