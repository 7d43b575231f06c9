-- ===== src/Receive/Receiver.antt =====
-- The `Receiver` interface of pkg/receive/receivers/receiver.go, and what a receiver sees.
use btrsync.Common.{ℕ, Bool, true, false, Option}
use btrsync.Common.Bytes.{Bytes}
use btrsync.Common.Outcome.{Outcome}
use btrsync.Btrfs.EncodedWrite.{EncodedWriteOp}
use btrsync.Sendstream.Attributes.{SendAttribute}
use btrsync.Sendstream.Attrs.{CmdAttrs}
use btrsync.Sendstream.Attrs.Values.{Uuid, Time}
use btrsync.Sendstream.Commands.{SendCommand}
use btrsync.Sendstream.Headers.{CmdHeader}
use btrsync.Sendstream.Scanner

-- The errors that the code tells apart with `errors.Is`, and those that it makes itself. Text that
-- is wrapped around an error with `%w` is left out. `not_exist` is one for which `os.IsNotExist` holds. `failed` is any other error.
pub data Error : Type 0 where
  skip_command not_supported unsupported not_exist failed : Error
  missing_attribute : SendAttribute → Error
  invalid_uuid decompress_failed : Error
  invalid_send_command : SendCommand → Error
  stream : Scanner.Error → Error
  max_errors : ℕ → Error → Error

-- `errors.Is(err, receivers.ErrSkipCommand)` and `errors.Is(err, receivers.ErrNotSupported)`.
unfoldable pub is_skip : Error → Bool
is_skip skip_command = true
is_skip (max_errors n e) = is_skip e
is_skip _ = false

unfoldable pub is_not_supported : Error → Bool
is_not_supported not_supported = true
is_not_supported (max_errors n e) = is_not_supported e
is_not_supported _ = false

-- `os.IsNotExist`, which does not look into wrapped errors.
unfoldable pub is_not_exist : Error → Bool
is_not_exist not_exist = true
is_not_exist _ = false

-- A call of a method of the interface, with its arguments.
pub data Op : Type 0 where
  subvol : Bytes → Uuid → ℕ → Op
  snapshot : Bytes → Uuid → ℕ → Uuid → ℕ → Op
  mkfile mkdir : Bytes → ℕ → Op
  mknod : Bytes → ℕ → ℕ → ℕ → Op
  mkfifo mksock : Bytes → ℕ → Op
  symlink : Bytes → ℕ → Bytes → Op
  rename link : Bytes → Bytes → Op
  unlink rmdir : Bytes → Op
  write : Bytes → ℕ → Bytes → Op
  encoded_write : Bytes → EncodedWriteOp → Op
  clone : Bytes → ℕ → ℕ → Uuid → ℕ → Bytes → ℕ → Op
  set_xattr : Bytes → Bytes → Bytes → Op
  remove_xattr : Bytes → Bytes → Op
  truncate chmod : Bytes → ℕ → Op
  chown : Bytes → ℕ → ℕ → Op
  utimes : Bytes → Time → Time → Time → Op
  update_extent : Bytes → ℕ → ℕ → Op
  enable_verity : Bytes → ℕ → ℕ → Bytes → Bytes → Op
  fallocate : Bytes → ℕ → ℕ → ℕ → Op
  fileattr : Bytes → ℕ → Op
  finish_subvolume : Op

-- `sendstream.ReceivingSubvolume`
pub record ReceivingSubvolume : Type 0 where
  pub path : Bytes
  pub uuid : Uuid
  pub ctransid : ℕ

-- `ReceiveContext`, as far as its methods answer from the state of a run.
pub record ReceiveContext : Type 0 where
  pub current_offset : ℕ
  pub current_subvolume : Option ReceivingSubvolume

-- A receiver over its own state. `PreOp` and `PostOp` are optional interfaces.
pub record Receiver : Type 1 where
  pub State : Type 0
  pub call : ReceiveContext → Op → State → Outcome Error (Unit {0}) × State
  pub pre_op :
      Option (ReceiveContext → CmdHeader → CmdAttrs → State → Outcome Error (Unit {0}) × State)
  pub post_op :
      Option (ReceiveContext → CmdHeader → CmdAttrs → State → Outcome Error (Unit {0}) × State)
