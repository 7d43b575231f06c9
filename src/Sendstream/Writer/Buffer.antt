-- ===== src/Sendstream/Writer/Buffer.antt =====
-- What the writer leaves in a buffer.
use btrsync.Common.{◌≡◌, refl, ◌∙◌, true, none, List, [], ◌∷◌, ◌++◌, append_assoc, append-nil}
use btrsync.Common.Bytes.{Bytes}
use btrsync.Sendstream.Attrs.{CmdAttrs, encode}
use btrsync.Sendstream.Commands.{SendCommand}
use btrsync.Sendstream.Headers.{
  put_stream_header, put_cmd_header, btrfs_send_stream_magic, btrfs_send_stream_version,
}
use btrsync.Sendstream.Writer.{
  buffer, Writer, Result, new_writer, write_command, command_header, and_then,
}

-- The bytes of the stream header, and of one command.
abbrev pub stream_header : Bytes
stream_header =
    put_stream_header
      (record { magic = btrfs_send_stream_magic; version = btrfs_send_stream_version })

unfoldable pub frame : SendCommand × CmdAttrs → Bytes
frame (cmd, attrs) = put_cmd_header (command_header cmd attrs) ++ encode attrs

unfoldable pub frames : List (SendCommand × CmdAttrs) → Bytes
frames [] = []
frames (c ∷ cs) = frame c ++ frames cs

-- Commands written one after the other.
unfoldable pub write_commands : List (SendCommand × CmdAttrs) → Writer buffer → Result buffer
write_commands [] w = (none, w)
write_commands ((cmd, attrs) ∷ cs) w =
    and_then buffer (write_command buffer cmd attrs w) (write_commands cs)

write_command-sent :
    (c : SendCommand × CmdAttrs) (out : Bytes)
    → write_command buffer c.0 c.1 (record { writer = out; header_sent = true })
      ≡ (none, record { writer = out ++ frame c; header_sent = true })
unfolding write_command frame
write_command-sent (cmd, attrs) out = rw append_assoc

write_commands-sent :
    (cs : List (SendCommand × CmdAttrs)) (out : Bytes)
    → write_commands cs (record { writer = out; header_sent = true })
      ≡ (none, record { writer = out ++ frames cs; header_sent = true })
unfolding write_commands frames and_then
write_commands-sent [] out = rw append-nil
write_commands-sent (c ∷ cs) out =
    rw (write_command-sent c out) (write_commands-sent cs (out ++ frame c) ∙ rw append_assoc)

-- A new writer on a buffer, given one command or more, appends the stream header once and then
-- each command as its header and encoded attributes, and returns no error.
pub write_commands-frames :
    (c : SendCommand × CmdAttrs) (cs : List (SendCommand × CmdAttrs)) (out : Bytes)
    → write_commands (c ∷ cs) (new_writer buffer out)
      ≡ (none, record { writer = out ++ (stream_header ++ frames (c ∷ cs)); header_sent = true })
write_commands-frames c cs out =
    opened ∙ write_commands-sent (c ∷ cs) (out ++ stream_header) ∙ rw append_assoc
  where
    opened :
        write_commands (c ∷ cs) (new_writer buffer out)
        ≡ write_commands (c ∷ cs) (record { writer = out ++ stream_header; header_sent = true })
    opened = unfold write_commands new_writer write_command in refl
