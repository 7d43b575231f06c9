-- ===== src/Receive/Loop.antt =====
-- `ProcessSendStream` of pkg/receive/receive.go: the goroutine that reads the stream.
use btrsync.Common.{
  ℕ, zero, suc, ◌+◌, Bool, true, false, ◌||◌, Option, none, some, length, ltb, leb, ◌==◌,
  if◌then◌else◌,
}
use btrsync.Common.Bytes.{Bytes}
use btrsync.Common.Dict.{lookup}
use btrsync.Common.Outcome.{Outcome, ok, err, panic, stuck, ◌>>=◌}
use btrsync.Sendstream.Attributes.{btrfs_send_a_path, btrfs_send_a_ctransid, btrfs_send_a_uuid}
use btrsync.Sendstream.Attrs.{CmdAttrs, index}
use btrsync.Sendstream.Attrs.Values.{Uuid, get_uint}
use btrsync.Sendstream.Commands.{
  SendCommand, btrfs_send_c_subvol, btrfs_send_c_snapshot, btrfs_send_c_end,
}
use btrsync.Sendstream.Headers.{CmdHeader}
use btrsync.Sendstream.Scanner.{Scanner, new_scanner, scan, command, scanner_err}
use btrsync.Receive.Context.{Libraries, ReceiveCtx, M, receive_context, call, next_offset}
use btrsync.Receive.Process.{process_funcs}
use btrsync.Receive.Process.Ensure.{wrapped}
use btrsync.Receive.Receiver.{
  Error, invalid_uuid, invalid_send_command, stream, max_errors, is_skip, Receiver,
  finish_subvolume, ReceiveContext, ReceivingSubvolume,
}

-- How a round of the loop goes on: with the next command, or out of the loop with the error that is
-- sent to the channel, if any.
pub data Flow : Type 0 where
  next : Flow
  stop : Option Error → Flow

unfoldable pub finished {ℓ} : {C : Type ℓ} → Outcome Error (Unit {0}) × C → Outcome Error C
finished (panic, c) = panic
finished (stuck, c) = stuck
finished (r, c) = ok c

unfoldable pub is_subvol_command : SendCommand → Bool
is_subvol_command cmd = cmd == btrfs_send_c_subvol || cmd == btrfs_send_c_snapshot

module _ (R : Receiver) (L : Libraries) where
  -- The variables of the goroutine.
  pub record Run : Type 0 where
    pub ctx : ReceiveCtx R
    pub stream_errors : ℕ

  -- A round gives a panic, or how to go on and the variables.
  abbrev pub Round : Type 0
  Round = Outcome Error (Flow × Run)

  -- `streamErrors++`, and the loop ends when they reach `maxErrors`.
  unfoldable pub count_error : Error → Run → Flow × Run
  count_error e r =
      let n = r.stream_errors + 1 in
      (
        if leb r.ctx.max_errors n then stop (some (max_errors n e)) else next,
        record r { stream_errors = n },
      )

  -- The subvolume that a skipped command opens.
  unfoldable pub resumed_subvol : CmdAttrs → ℕ → Option Uuid → Run → Round
  resumed_subvol attrs ctransid none r = ok (stop (some invalid_uuid), r)
  resumed_subvol attrs ctransid (some uuid) r =
      let info : ReceivingSubvolume = record {
        path = index attrs btrfs_send_a_path;
        uuid = uuid;
        ctransid = ctransid;
      } in
      ok (next, record r { ctx = record (r.ctx) { current_subvol_info = some info } })

  -- A command before the start offset is skipped, but the subvolume that it opens is kept.
  unfoldable pub skip_command : CmdHeader → CmdAttrs → Run → Round
  unfolding is_subvol_command resumed_subvol
  skip_command cmd attrs r =
      let r' : Run = record r { ctx = next_offset R r.ctx } in
      if is_subvol_command cmd.cmd
      then (get_uint 8 (index attrs btrfs_send_a_ctransid) >>= λ ctransid.
          resumed_subvol attrs ctransid (L.uuid_from_bytes (index attrs btrfs_send_a_uuid)) r')
      else ok (next, r')

  -- An optional method of the receiver.
  unfoldable pub call_hook :
      Option (ReceiveContext → CmdHeader → CmdAttrs → R.State → Outcome Error (Unit {0}) × R.State)
      → CmdHeader
      → CmdAttrs
      → M R (Unit {0})
  call_hook none cmd attrs c = (ok tt, c)
  call_hook (some f) cmd attrs c =
      let (r, s) = f (receive_context R c) cmd attrs c.receiver in (r, record c { receiver = s })

  -- An error counts unless it asks to skip the command.
  unfoldable pub settle : ℕ → Outcome Error (Unit {0}) × ReceiveCtx R → Round
  unfolding count_error
  settle errors (ok u, c) = ok (next, record { ctx = c; stream_errors = errors })
  settle errors (err e, c) =
      let r : Run = record { ctx = c; stream_errors = errors } in
      if is_skip e then ok (next, r) else ok (count_error e r)
  settle errors (panic, c) = panic
  settle errors (stuck, c) = stuck

  -- The rest of a round, unless the loop was left.
  unfoldable pub and_next : Round → (Run → Round) → Round
  and_next (ok (next, r)) f = f r
  and_next (ok (stop e, r)) f = ok (stop e, r)
  and_next (err e) f = err e
  and_next panic f = panic
  and_next stuck f = stuck

  unfoldable pub post_op : CmdHeader → CmdAttrs → Run → Round
  unfolding and_next settle call_hook
  post_op cmd attrs r =
      and_next (settle r.stream_errors (call_hook R.post_op cmd attrs r.ctx))
        λ r'. ok (next, record r' { ctx = next_offset R r'.ctx })

  -- An END command without `honorEndCmd`.
  unfoldable pub end_subvolume : M R (Unit {0})
  end_subvolume c =
      let (r, c') = call R finish_subvolume c in (r, record c' { current_subvol_info = none })

  unfoldable pub run_process : CmdHeader → CmdAttrs → M R (Unit {0})
  run_process cmd attrs c = elim (lookup cmd.cmd (process_funcs R L)) [
    | none ↦ (err (invalid_send_command cmd.cmd), c)
    | some f ↦ f attrs c
  ]

  -- The subvolume that is still open is finished; an error of that is only logged.
  unfoldable pub finish_open : ReceiveCtx R → Outcome Error (ReceiveCtx R)
  unfolding finished
  finish_open c = elim c.current_subvol_info [
    | none ↦ ok c
    | some info ↦ finished (call R finish_subvolume c)
  ]

  unfoldable pub dispatch_command : CmdHeader → CmdAttrs → Run → Round
  unfolding finish_open and_next settle end_subvolume run_process post_op
  dispatch_command cmd attrs r =
      if cmd.cmd == btrfs_send_c_end
      then if r.ctx.honor_end_cmd
        then (finish_open r.ctx >>= λ c. ok (stop none, record r { ctx = c }))
        else and_next (settle r.stream_errors (end_subvolume r.ctx)) (post_op cmd attrs)
      else and_next (settle r.stream_errors (run_process cmd attrs r.ctx)) (post_op cmd attrs)

  -- After the pre-op: an error of it ends the round, and the command is not dispatched.
  unfoldable pub after_pre_op :
      CmdHeader → CmdAttrs → ℕ → Outcome Error (Unit {0}) × ReceiveCtx R → Round
  unfolding dispatch_command settle
  after_pre_op cmd attrs errors (ok u, c) =
      dispatch_command cmd attrs (record { ctx = c; stream_errors = errors })
  after_pre_op cmd attrs errors (err e, c) = settle errors (err e, next_offset R c)
  after_pre_op cmd attrs errors (panic, c) = panic
  after_pre_op cmd attrs errors (stuck, c) = stuck

  -- One round of the loop.
  unfoldable pub process_command : CmdHeader → CmdAttrs → Run → Round
  unfolding skip_command after_pre_op call_hook
  process_command cmd attrs r =
      if ltb r.ctx.current_offset r.ctx.start_offset
      then skip_command cmd attrs r
      else after_pre_op cmd attrs r.stream_errors (call_hook R.pre_op cmd attrs r.ctx)

  -- What `ProcessSendStream` returns, with the context as the loop leaves it.
  abbrev pub Received : Type 0
  Received = Outcome Error (Option Error × ReceiveCtx R)

  unfoldable pub end_of_stream : Scanner → Run → Received
  unfolding finish_open
  end_of_stream s r = elim (scanner_err s) [
    | some e ↦ ok (some (stream e), r.ctx)
    | none ↦ finish_open r.ctx >>= λ c. ok (none, c)
  ]

  -- The loop goes on as it is told.
  unfoldable pub and_loop : Round → (Run → Received) → Received
  and_loop (ok (next, r)) f = f r
  and_loop (ok (stop e, r)) f = ok (e, r.ctx)
  and_loop (err e) f = err e
  and_loop panic f = panic
  and_loop stuck f = stuck

  -- `for stream.Scan() { … }` and what follows it, on fuel.
  unfoldable pub run_loop : ℕ → Scanner → Run → Received
  unfolding and_loop process_command end_of_stream
  run_loop zero s r = stuck
  run_loop (suc fuel) s r = wrapped (scan s) >>= λ (more, s'). elim more [
    | true ↦ and_loop (process_command (command s').0 (command s').1 r) (run_loop fuel s')
    | false ↦ end_of_stream s' r
  ]

  -- Each command takes ten bytes at least, so fuel beyond the length of the stream is enough.
  unfoldable pub process_send_stream : Bytes → ReceiveCtx R → Received
  unfolding run_loop
  process_send_stream b c =
      run_loop (suc (length b)) (new_scanner b c.ignore_checksums)
        (record { ctx = c; stream_errors = 0 })
