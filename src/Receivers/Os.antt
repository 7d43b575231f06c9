-- ===== src/Receivers/Os.antt =====
-- What the receivers use of the operating system, as a parameter: the packages `os`, `syscall` and
-- `fmt` of the standard library, over a state of the world.
use btrsync.Common.{ℕ}
use btrsync.Common.Bytes.{Bytes}
use btrsync.Common.Int.{ℤ}
use btrsync.Common.Outcome.{Outcome}
use btrsync.Common.Paths.{Paths}
use btrsync.Sendstream.Attrs.Values.{Uuid, Time}
use btrsync.Receive.Receiver.{Error}

-- `os.O_WRONLY`, `os.O_RDONLY`, `os.O_RDWR` and `os.O_CREATE|os.O_RDWR`; `truncating` is `os.Create`.
pub data OpenMode : Type 0 where
  write_only read_only read_write create_read_write truncating : OpenMode

-- A call that gives no value but an error.
pub data Syscall : Type 0 where
  sys_mkdir_all sys_mkdir sys_mkfifo : Bytes → ℕ → Syscall
  sys_mknod : Bytes → ℕ → ℤ → Syscall
  sys_symlink sys_rename sys_link : Bytes → Bytes → Syscall
  sys_remove sys_remove_all : Bytes → Syscall
  sys_bind : ℕ → Bytes → Syscall
  sys_write : ℕ → Bytes → Syscall
  sys_write_at : ℕ → Bytes → ℤ → Syscall
  sys_fallocate : ℕ → ℕ → ℤ → ℤ → Syscall
  sys_close : ℕ → Syscall
  sys_setxattr : Bytes → Bytes → Bytes → ℤ → Syscall
  sys_removexattr : Bytes → Bytes → Syscall
  sys_truncate : Bytes → ℤ → Syscall
  sys_chmod : Bytes → ℕ → Syscall
  sys_chown : Bytes → ℤ → ℤ → Syscall
  sys_chtimes : Bytes → Time → Time → Syscall

-- `open_file` and `socket` give a descriptor. `scan_uint` is `fmt.Fscanf(f, "%d", &offset)`, `decimal` is
-- `fmt.Sprintf("%d", n)`, and `uuid_string` is `UUID.String`.
pub record Os : Type 1 where
  pub World : Type 0
  pub paths : Paths
  pub decimal : ℕ → Bytes
  pub uuid_string : Uuid → Bytes
  pub run : Syscall → World → Outcome Error (Unit {0}) × World
  pub open_file : Bytes → OpenMode → ℕ → World → Outcome Error ℕ × World
  pub socket : World → Outcome Error ℕ × World
  pub scan_uint : ℕ → World → Outcome Error ℕ × World
