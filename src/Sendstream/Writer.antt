-- ===== src/Sendstream/Writer.antt =====
-- `Writer` of pkg/sendstream/writer.go, over any `io.Writer`.
pub mod Buffer
use btrsync.Common.{ℕ, Bool, true, false, Option, none, some, List, [], ◌++◌, if◌then◌else◌}
use btrsync.Common.Bytes.{Bytes}
use btrsync.Sendstream.Attrs.{CmdAttrs, new_cmd_attrs, binary_size, encode}
use btrsync.Sendstream.Commands.{SendCommand, btrfs_send_c_end}
use btrsync.Sendstream.Headers.{
  CmdHeader, put_stream_header, put_cmd_header, calculate_crc32, btrfs_send_stream_magic,
  btrfs_send_stream_version,
}

-- `ErrHeaderAlreadySent`, or the error of the `io.Writer`.
pub data WriteError : Type 0 where
  header_already_sent write_failed : WriteError

-- An `io.Writer`: its state, and a write of some bytes, with `false` for an error.
pub record Sink : Type 1 where
  pub State : Type 0
  pub write : State → Bytes → Bool × State

-- `bytes.Buffer`, and any other writer that keeps all it is given and never fails.
abbrev pub buffer : Sink
buffer = record { State = Bytes; write = λ s b. (true, s ++ b) }

-- The header that `WriteCommand` puts before the encoded attributes.
unfoldable pub command_header : SendCommand → CmdAttrs → CmdHeader
command_header cmd attrs =
    let h : CmdHeader = record { len = binary_size attrs; cmd = cmd; crc = 0 } in
    record h { crc = calculate_crc32 h (encode attrs) }

module _ (S : Sink) where
  pub record Writer : Type 0 where
    pub writer : S.State
    pub header_sent : Bool

  abbrev pub Result : Type 0
  Result = Option WriteError × Writer

  unfoldable pub new_writer : S.State → Writer
  new_writer w = record { writer = w; header_sent = false }

  -- `if err := …; err != nil { return err }`
  unfoldable pub and_then : Result → (Writer → Result) → Result
  and_then (none, w) f = f w
  and_then (some e, w) f = (some e, w)

  unfoldable pub write : Bytes → Writer → Result
  write b w =
      let (done, s) = S.write w.writer b in
      (if done then none else some write_failed, record w { writer = s })

  unfoldable pub send_header : Writer → Result
  unfolding and_then write
  send_header w =
      if w.header_sent
      then (some header_already_sent, w)
      else and_then
          (write
            (put_stream_header
              (record { magic = btrfs_send_stream_magic; version = btrfs_send_stream_version }))
            w)
          (λ w'. (none, record w' { header_sent = true }))

  ensure_header : Writer → Result
  unfolding send_header
  ensure_header w = if w.header_sent then (none, w) else send_header w

  unfoldable pub write_command : SendCommand → CmdAttrs → Writer → Result
  unfolding ensure_header command_header and_then write
  write_command cmd attrs w = and_then (ensure_header w) λ w'.
      and_then (write (put_cmd_header (command_header cmd attrs)) w')
        λ w''. write (encode attrs) w''

  -- `End`: `WriteCommand(NewEndCommand())`.
  unfoldable pub end : Writer → Result
  unfolding ensure_header and_then write_command
  end w = and_then (ensure_header w) λ w'. write_command btrfs_send_c_end new_cmd_attrs w'
