-- ===== src/Receive/Replay/Streams.antt =====
-- `ProcessSendStream` of pkg/receive/receive.go on a stream that was written for a list of calls.
use btrsync.Common.{
  ℕ, zero, suc, ◌≤◌, ◌<◌, ◌≡◌, refl, ap, ◌∙◌, arith, Bool, none, List, [], ◌∷◌, ◌++◌, map, length,
  length-append, All, Option-cases, inl, inr,
}
use btrsync.Common.Bytes.{Bytes}
use btrsync.Common.Outcome.{ok, err, panic, stuck}
use btrsync.Sendstream.Attrs.{CmdAttrs, encode}
use btrsync.Sendstream.Commands.{SendCommand}
use btrsync.Sendstream.Headers.{CmdHeader, zero_cmd_header, put_cmd_header, length-put_cmd_header}
use btrsync.Sendstream.Scanner.{Scanner, eof, scan_error, new_scanner, command, scanner_err}
use btrsync.Sendstream.Stream.{IsCommand}
use btrsync.Sendstream.Stream.Scanning.{
  opened, scan_error-eof, scan-new_scanner, scan-frame, scan-nil,
}
use btrsync.Sendstream.Writer.{command_header, buffer, new_writer}
use btrsync.Sendstream.Writer.Buffer.{
  frame, frames, stream_header, write_commands, write_commands-frames,
}
use btrsync.Receive.Commands.{command_of, IsOp}
use btrsync.Receive.Context.{Libraries, UuidLaw, ReceiveCtx}
use btrsync.Receive.Loop.{
  next, stop, Run, Round, Received, and_loop, end_of_stream, run_loop, process_send_stream,
}
use btrsync.Receive.Process.Ensure.{wrapped}
use btrsync.Receive.Receiver.{Op, Receiver}
use btrsync.Receive.Replay.{replay, replay_op, ended, stream_error}
use btrsync.Receive.Replay.Rounds.{process_command-replay_op}

length-frame : (c : SendCommand × CmdAttrs) → 10 ≤ length (frame c)
unfolding frame
length-frame (cmd, attrs) = omega (
  arith,
  length-append {0} (put_cmd_header (command_header cmd attrs)) (encode attrs),
  length-put_cmd_header (command_header cmd attrs),
)

pub length-frames : (cs : List (SendCommand × CmdAttrs)) → length cs ≤ length (frames cs)
unfolding frames
length-frames [] = omega arith
length-frames (c ∷ cs) =
    omega (arith, length-append {0} (frame c) (frames cs), length-frame c, length-frames cs)

length-map : (ops : List Op) → length (map command_of ops) ≡ length ops
length-map [] = refl
length-map (op ∷ ops) = ap suc (length-map ops)

module _ (R : Receiver) (L : Libraries) (law : UuidLaw L) (no_pre : R.pre_op ≡ none)
    (no_post : R.post_op ≡ none) where
  and_loop-ext :
      (x : Round R L) (f g : Run R L → Received R L)
      → ((r : Run R L) → f r ≡ g r)
      → and_loop R L x f ≡ and_loop R L x g
  unfolding and_loop
  and_loop-ext (ok (next, r)) f g h = h r
  and_loop-ext (ok (stop e, r)) f g h = refl
  and_loop-ext (err e) f g h = refl
  and_loop-ext panic f g h = refl
  and_loop-ext stuck f g h = refl

  end_of_stream-ended :
      (s : Scanner) (r : Run R L) → end_of_stream R L s r ≡ ended R L (stream_error s.scan_err) r
  unfolding end_of_stream ended scanner_err stream_error
  end_of_stream-ended s r = elim (Option-cases s.scan_err) [
    | inl e ↦ rw (end_of_stream, e)
    | inr (x, e) ↦ rw (end_of_stream, e)
  ]

  run_loop-new_scanner :
      (n : ℕ) (ignore : Bool) (d : Bytes) (r : Run R L)
      → run_loop R L (suc n) (new_scanner (stream_header ++ d) ignore) r
        ≡ run_loop R L (suc n) (opened ignore d zero_cmd_header []) r
  unfolding run_loop
  run_loop-new_scanner n ignore d r = rw (run_loop, scan-new_scanner ignore d)

  run_loop-replay :
      (ops : List Op) (fuel : ℕ) (ignore : Bool) (hdr : CmdHeader) (old : CmdAttrs) (r : Run R L)
      → All IsOp ops
      → All IsCommand (map command_of ops)
      → length ops < fuel
      → run_loop R L fuel (opened ignore (frames (map command_of ops)) hdr old) r
        ≡ replay R L hdr.cmd ops r
  unfolding run_loop frames replay command end_of_stream scanner_err ended wrapped command_header
      command_of
  run_loop-replay ops zero ignore hdr old r h v l = absurd (omega arith)
  run_loop-replay [] (suc fuel) ignore hdr old r h v l = rw (
    scan-nil ignore hdr old,
    end_of_stream-ended (record (opened ignore [] hdr old) { scan_err = scan_error hdr eof }) r,
    scan_error-eof hdr,
  )
  run_loop-replay (op ∷ ops) (suc fuel) ignore hdr old r (ho, h) (hv, v) l =
      let (attrs, e, same) =
        scan-frame (command_of op) ignore (frames (map command_of ops)) hdr old hv in
      let header = command_header (command_of op).0 (command_of op).1 in
      rw (e) (
        ap
          (λ t.
            and_loop R L t
              (run_loop R L fuel (opened ignore (frames (map command_of ops)) header attrs)))
          (process_command-replay_op R L law attrs header.len header.crc no_pre no_post op r ho
            same)
        ∙ and_loop-ext (replay_op R L op r) _ _
            (λ r'. run_loop-replay ops fuel ignore header attrs r' h v (omega arith)))

  process_send_stream-frames :
      (op : Op) (ops : List Op) (c : ReceiveCtx R)
      → All IsOp (op ∷ ops)
      → All IsCommand (map command_of (op ∷ ops))
      → process_send_stream R L (stream_header ++ frames (map command_of (op ∷ ops))) c
        ≡ replay R L (command_of op).0 (op ∷ ops) (record { ctx = c; stream_errors = 0 })
  unfolding process_send_stream replay
  process_send_stream-frames op ops c h v =
      let b = frames (map command_of (op ∷ ops)) in
      let r : Run R L = record { ctx = c; stream_errors = 0 } in
      let n = length (stream_header ++ b) in
      run_loop-new_scanner n c.ignore_checksums b r
      ∙ run_loop-replay (op ∷ ops) (suc n) c.ignore_checksums zero_cmd_header [] r h v (
          omega (
            arith,
            length-append {0} stream_header b,
            length-map ops,
            length-frames (map command_of (op ∷ ops)),
          ))

  -- On the stream that a new writer leaves for a list of calls, one or more, ProcessSendStream
  -- gives what the calls give one by one, in what it returns and in what it leaves of the context
  -- and the receiver, or a panic if one of the calls gives one: calls before the start offset are
  -- skipped but for the subvolume that they open, the others applied, with the errors counted that
  -- are no request to skip, up to the error that makes them as many as the limit or to an END
  -- command that is honored; at the end, the subvolume that is still open is finished if the last
  -- command was END, and io.EOF is the error if it was not. The receiver has no pre- and no post-
  -- op, the calls fit their Go types and their commands the format, and uuid.FromBytes copies 16
  -- bytes and refuses any other number of them.
  pub process_send_stream-replay :
      (op : Op) (ops : List Op) (c : ReceiveCtx R)
      → All IsOp (op ∷ ops)
      → All IsCommand (map command_of (op ∷ ops))
      → process_send_stream R L
          (write_commands (map command_of (op ∷ ops)) (new_writer buffer [])).1.writer
          c
        ≡ replay R L (command_of op).0 (op ∷ ops) (record { ctx = c; stream_errors = 0 })
  process_send_stream-replay op ops c h v =
      ap (λ w. process_send_stream R L w.1.writer c)
        (write_commands-frames (command_of op) (map command_of ops) [])
      ∙ process_send_stream-frames op ops c h v
