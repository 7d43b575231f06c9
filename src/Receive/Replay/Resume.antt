-- ===== src/Receive/Replay/Resume.antt =====
-- `ProcessSendStream` of pkg/receive/receive.go from a start offset.
use btrsync.Common.{
  ◌+◌, ◌^◌, ◌<◌, ◌≡◌, ap, ◌∙◌, arith, Option, none, List, [], ◌∷◌, ◌++◌, map, length, lt→ltb, All,
}
use btrsync.Common.Outcome.{ok}
use btrsync.Sendstream.Commands.{SendCommand}
use btrsync.Sendstream.Stream.{IsCommand}
use btrsync.Sendstream.Writer.{buffer, new_writer}
use btrsync.Sendstream.Writer.Buffer.{write_commands}
use btrsync.Receive.Commands.{command_of, IsOp}
use btrsync.Receive.Context.{Libraries, UuidLaw, ReceiveCtx, next_offset, from_offset}
use btrsync.Receive.Loop.{next, Run, and_loop, process_send_stream}
use btrsync.Receive.Receiver.{Op, Receiver, ReceivingSubvolume}
use btrsync.Receive.Replay.{opened_by, resumed, replay, replay_op}
use btrsync.Receive.Replay.Streams.{process_send_stream-replay}

-- The last subvolume that a list of calls opens, and the command of the last call.
abbrev pub opened_by_all : List Op → Option ReceivingSubvolume → Option ReceivingSubvolume
opened_by_all [] info = info
opened_by_all (op ∷ ops) info = opened_by_all ops (opened_by op info)

abbrev pub last_op : SendCommand → List Op → SendCommand
last_op last [] = last
last_op last (op ∷ ops) = last_op (command_of op).0 ops

module _ (R : Receiver) (L : Libraries) where
  -- The variables of the loop when it has skipped to the start offset.
  abbrev pub skipped : List Op → Run R L → Run R L
  skipped ops r = record r {
    ctx = record (r.ctx) {
      current_offset = r.ctx.start_offset;
      current_subvol_info = opened_by_all ops r.ctx.current_subvol_info;
    };
  }

  replay_op-skipped :
      (op : Op) (r : Run R L)
      → r.ctx.current_offset < r.ctx.start_offset
      → replay_op R L op r ≡ ok (next, record r { ctx = resumed R L op (next_offset R r.ctx) })
  unfolding replay_op
  replay_op-skipped op r h = rw (lt→ltb r.ctx.current_offset r.ctx.start_offset h)

  replay-skipped :
      (xs ys : List Op) (last : SendCommand) (r : Run R L)
      → r.ctx.current_offset + length xs ≡ r.ctx.start_offset
      → r.ctx.start_offset < 2 ^ 64
      → replay R L last (xs ++ ys) r ≡ replay R L (last_op last xs) ys (skipped xs r)
  unfolding replay and_loop resumed next_offset
  replay-skipped [] ys last r h l =
      let e : r.ctx.current_offset ≡ r.ctx.start_offset = omega arith in
      ap (λ n. replay R L last ys (record r { ctx = record (r.ctx) { current_offset = n } })) e
  replay-skipped (x ∷ xs) ys last r h l = rw (replay_op-skipped x r (omega arith)) (
      replay-skipped xs ys (command_of x).0 (record r { ctx = resumed R L x (next_offset R r.ctx) })
        (omega arith) l)

  -- With a start offset, the calls before it are not applied: ProcessSendStream on the stream of
  -- all calls goes on as if it had counted them and opened the last subvolume that they open, with
  -- the receiver as it was. The context is at offset 0, the offset is the number of these calls,
  -- one or more and below 2^64, the receiver has no pre- and no post-op, the calls fit their Go
  -- types and their commands the format, and uuid.FromBytes copies 16 bytes and refuses any other
  -- number of them.
  pub process_send_stream-from_offset :
      (law : UuidLaw L) (no_pre : R.pre_op ≡ none) (no_post : R.post_op ≡ none) (x : Op)
      (xs ys : List Op) (c : ReceiveCtx R)
      → All IsOp (x ∷ xs ++ ys)
      → All IsCommand (map command_of (x ∷ xs ++ ys))
      → c.current_offset ≡ 0
      → length (x ∷ xs) < 2 ^ 64
      → process_send_stream R L
          (write_commands (map command_of (x ∷ xs ++ ys)) (new_writer buffer [])).1.writer
          (from_offset R (length (x ∷ xs)) c)
        ≡ replay R L (last_op (command_of x).0 xs) ys (record {
          ctx = record c {
            start_offset = length (x ∷ xs);
            current_offset = length (x ∷ xs);
            current_subvol_info = opened_by_all (x ∷ xs) c.current_subvol_info;
          };
          stream_errors = 0;
        })
  unfolding from_offset
  process_send_stream-from_offset law no_pre no_post x xs ys c h v e l =
      process_send_stream-replay R L law no_pre no_post x (xs ++ ys)
        (from_offset R (length (x ∷ xs)) c) h v
      ∙ replay-skipped (x ∷ xs) ys (command_of x).0
          (record { ctx = from_offset R (length (x ∷ xs)) c; stream_errors = 0 }) (omega arith) l
