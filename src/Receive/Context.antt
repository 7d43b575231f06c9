-- ===== src/Receive/Context.antt =====
-- `receiveCtx` of pkg/receive/context.go, its options (pkg/receive/options.go), and actions on it.
-- Logging is left out, and with it the verbosity. The Go context is never cancelled from outside.
use btrsync.Common.{
  ℕ, ◌+◌, ◌%◌, ◌^◌, Bool, true, false, Option, none, some, length, ◌==◌, ◌≡◌, if◌then◌else◌,
}
use btrsync.Common.Bytes.{Bytes}
use btrsync.Common.Outcome.{ok}
use btrsync.Common.Action.{Action}
use btrsync.Btrfs.EncodedWrite.{Codecs}
use btrsync.Sendstream.Attrs.Values.{Uuid}
use btrsync.Receive.Receiver.{Error, Op, ReceivingSubvolume, ReceiveContext, Receiver}

-- What other packages provide: `uuid.FromBytes`, with `none` for an error, and the decompressors.
pub record Libraries : Type 0 where
  pub uuid_from_bytes : Bytes → Option Uuid
  pub codecs : Codecs

-- `uuid.FromBytes` copies 16 bytes, and refuses any other number of them.
abbrev pub UuidLaw : Libraries → Type 0
UuidLaw L = (b : Bytes) → L.uuid_from_bytes b ≡ (if length b == 16 then some b else none)

module _ (R : Receiver) where
  pub record ReceiveCtx : Type 0 where
    pub max_errors : ℕ
    pub honor_end_cmd : Bool
    pub force_decompress : Bool
    pub ignore_checksums : Bool
    pub start_offset : ℕ
    pub current_offset : ℕ
    pub current_subvol_info : Option ReceivingSubvolume
    pub receiver : R.State

  -- The context that `ProcessSendStream` begins with, for a given receiver (`To`).
  unfoldable pub new_ctx : R.State → ReceiveCtx
  new_ctx s = record {
    max_errors = 0;
    honor_end_cmd = false;
    force_decompress = false;
    ignore_checksums = false;
    start_offset = 0;
    current_offset = 0;
    current_subvol_info = none;
    receiver = s;
  }

  unfoldable pub honor_end_command : ReceiveCtx → ReceiveCtx
  honor_end_command c = record c { honor_end_cmd = true }

  unfoldable pub with_max_errors : ℕ → ReceiveCtx → ReceiveCtx
  with_max_errors n c = record c { max_errors = n }

  unfoldable pub force_decompress_option : ReceiveCtx → ReceiveCtx
  force_decompress_option c = record c { force_decompress = true }

  unfoldable pub ignore_checksums_option : ReceiveCtx → ReceiveCtx
  ignore_checksums_option c = record c { ignore_checksums = true }

  unfoldable pub from_offset : ℕ → ReceiveCtx → ReceiveCtx
  from_offset n c = record c { start_offset = n }

  -- An action on the context that returns `(value, error)`.
  abbrev pub M : Type 0 → Type 0
  M = Action Error ReceiveCtx

  -- `CurrentOffset`, `CurrentSubvolume`
  unfoldable pub receive_context : ReceiveCtx → ReceiveContext
  receive_context c = record {
    current_offset = c.current_offset;
    current_subvolume = c.current_subvol_info;
  }

  -- A call of a method of the receiver.
  unfoldable pub call : Op → M (Unit {0})
  call op c =
      let (r, s) = R.call (receive_context c) op c.receiver in (r, record c { receiver = s })

  unfoldable pub set_subvol : Option ReceivingSubvolume → M (Unit {0})
  set_subvol info c = (ok tt, record c { current_subvol_info = info })

  -- `ctx.currentOffset++` on a `uint64`.
  unfoldable pub next_offset : ReceiveCtx → ReceiveCtx
  next_offset c = record c { current_offset = (c.current_offset + 1) % 2 ^ 64 }
