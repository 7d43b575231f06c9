-- ===== src/Receive/Replay.antt =====
-- What `ProcessSendStream` of pkg/receive/receive.go is to do with a list of calls: each in turn,
-- with the offset and the errors counted.
pub mod Rounds
pub mod Streams
pub mod Resume
use btrsync.Common.{
  ℕ, ◌+◌, ltb, Bool, true, false, Option, none, some, List, [], ◌∷◌, if◌then◌else◌,
}
use btrsync.Common.Outcome.{Outcome, ok, err, panic, stuck, ◌>>=◌}
use btrsync.Sendstream.Commands.{SendCommand}
use btrsync.Sendstream.Scanner
use btrsync.Sendstream.Stream.Scanning.{end_err}
use btrsync.Receive.Commands.{command_of, apply_op}
use btrsync.Receive.Context.{Libraries, ReceiveCtx, next_offset}
use btrsync.Receive.Loop.{
  Flow, next, stop, Run, Round, Received, end_subvolume, finish_open, and_loop,
}
use btrsync.Receive.Receiver.{
  Op, subvol, snapshot, finish_subvolume, Receiver, ReceivingSubvolume, Error, stream, is_skip,
  max_errors,
}

unfoldable pub is_finish : Op → Bool
is_finish finish_subvolume = true
is_finish op = false

-- The subvolume that is open after a skipped call.
unfoldable pub opened_by : Op → Option ReceivingSubvolume → Option ReceivingSubvolume
opened_by (subvol path uuid ctransid) info =
    some (record { path = path; uuid = uuid; ctransid = ctransid })
opened_by (snapshot path uuid ctransid clone_uuid clone_ctransid) info =
    some (record { path = path; uuid = uuid; ctransid = ctransid })
opened_by op info = info

-- The error that a scanner stopped with, as `ProcessSendStream` passes it on.
unfoldable pub stream_error : Option Scanner.Error → Option Error
stream_error none = none
stream_error (some e) = some (stream e)

module _ (R : Receiver) (L : Libraries) where
  -- A skipped call leaves only the subvolume that it opens.
  unfoldable pub resumed : Op → ReceiveCtx R → ReceiveCtx R
  unfolding opened_by
  resumed op c = record c { current_subvol_info = opened_by op c.current_subvol_info }

  unfoldable pub counted : Run R L → Round R L
  counted r = ok (next, record r { ctx = next_offset R r.ctx })

  -- What follows a call that gave a result: the offset moves on and the stream goes on, after an
  -- error that is no request to skip only while fewer errors than the limit are counted.
  unfoldable pub judged : ℕ → Outcome Error (Unit {0}) × ReceiveCtx R → Round R L
  unfolding counted
  judged errors (ok u, c) = counted (record { ctx = c; stream_errors = errors })
  judged errors (err e, c) =
      if is_skip e
      then counted (record { ctx = c; stream_errors = errors })
      else if ltb (errors + 1) c.max_errors
      then counted (record { ctx = c; stream_errors = errors + 1 })
      else ok
          (stop (some (max_errors (errors + 1) e)), record { ctx = c; stream_errors = errors + 1 })
  judged errors (panic, c) = panic
  judged errors (stuck, c) = stuck

  -- A call that is not skipped; the end of a subvolume may end the stream.
  unfoldable pub applied : Op → Run R L → Round R L
  unfolding judged is_finish
  applied op r =
      if is_finish op
      then if r.ctx.honor_end_cmd
        then (finish_open R L r.ctx >>= λ c. ok (stop none, record r { ctx = c }))
        else judged r.stream_errors (end_subvolume R L r.ctx)
      else judged r.stream_errors (apply_op R L op r.ctx)

  unfoldable pub replay_op : Op → Run R L → Round R L
  unfolding applied resumed
  replay_op op r =
      if ltb r.ctx.current_offset r.ctx.start_offset
      then ok (next, record r { ctx = resumed op (next_offset R r.ctx) })
      else applied op r

  -- The end of the stream, after the command `last`.
  unfoldable pub ended : Option Error → Run R L → Received R L
  ended (some e) r = ok (some e, r.ctx)
  ended none r = finish_open R L r.ctx >>= λ c. ok (none, c)

  unfoldable pub replay : SendCommand → List Op → Run R L → Received R L
  unfolding replay_op ended stream_error
  replay last [] r = ended (stream_error (end_err last)) r
  replay last (op ∷ ops) r = and_loop R L (replay_op op r) (replay (command_of op).0 ops)
