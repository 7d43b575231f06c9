-- ===== src/Receive/Ends/Streams.antt =====
-- Whether `ProcessSendStream` of pkg/receive/receive.go ends on any bytes.
use btrsync.Common.{
  ℕ, zero, suc, ◌<◌, ◌≢◌, arith, Bool, true, false, Option, none, some, length, Option-cases, inl,
  inr, if◌then◌else◌,
}
use btrsync.Common.Bytes.{Bytes}
use btrsync.Common.Outcome.{Outcome, ok, err, panic, stuck, ◌>>=◌, Outcome-cases}
use btrsync.Sendstream.Attrs.{CmdAttrs}
use btrsync.Sendstream.Attrs.Values.{Uuid}
use btrsync.Sendstream.Headers.{CmdHeader}
use btrsync.Sendstream.Scanner.{Scanner, new_scanner, scan, scanner_err, command}
use btrsync.Sendstream.Scanner.Progress.{scan-shorter, scan-ne-stuck}
use btrsync.Receive.Context.{Libraries, ReceiveCtx, next_offset}
use btrsync.Receive.Loop.{
  next, stop, Run, Round, Received, finished, resumed_subvol, skip_command, call_hook, settle,
  and_next, post_op, end_subvolume, finish_open, dispatch_command, after_pre_op, process_command,
  end_of_stream, and_loop, run_loop, process_send_stream,
}
use btrsync.Receive.Process.Ensure.{wrapped}
use btrsync.Receive.Receiver.{Receiver, ReceiveContext, Error, is_skip, finish_subvolume}
use btrsync.Receive.Ends.{
  Ends, ends_ok, ends_err, ends_panic, Answers, CallsEnd, get_uint-Ends, call-Answers,
  Answers-bind_state,
}
use btrsync.Receive.Ends.Process.{run_process-Answers}

bind-Ends :
    {E A B : Type 0} (x : Outcome E A) (f : A → Outcome E B)
    → Ends x
    → ((a : A) → Ends (f a))
    → Ends (x >>= f)
bind-Ends (ok a) f h k = k a
bind-Ends (err e) f h k = ends_err e
bind-Ends panic f h k = ends_panic
bind-Ends stuck f h k = elim h [ ]

if-Ends :
    {E A : Type 0} (b : Bool) (x y : Outcome E A) → Ends x → Ends y → Ends (if b then x else y)
if-Ends true x y h k = h
if-Ends false x y h k = k

finished-Ends : {C : Type 0} (x : Outcome Error (Unit {0}) × C) → Answers x → Ends (finished x)
unfolding finished
finished-Ends (ok u, c) h = ends_ok c
finished-Ends (err e, c) h = ends_ok c
finished-Ends (panic, c) h = ends_panic
finished-Ends (stuck, c) h = elim h.ends [ ]

Ends-ne : {E A : Type 0} (x : Outcome E A) → Ends x → x ≢ stuck
Ends-ne (ok a) h = λ e. cc
Ends-ne (err a) h = λ e. cc
Ends-ne panic h = λ e. cc
Ends-ne stuck h = elim h [ ]

-- A pre- or post-op that ends.
abbrev pub HookEnds :
    {S : Type 0}
    → Option (ReceiveContext → CmdHeader → CmdAttrs → S → Outcome Error (Unit {0}) × S)
    → Type 0
HookEnds none = Unit
HookEnds {S} (some f) =
    (c : ReceiveContext) (cmd : CmdHeader) (attrs : CmdAttrs) (s : S) → Answers (f c cmd attrs s)

module _ (R : Receiver) (L : Libraries) (calls : CallsEnd R) (pre : HookEnds R.pre_op)
    (post : HookEnds R.post_op) where
  call_hook-Answers :
      (hook : Option
        (ReceiveContext → CmdHeader → CmdAttrs → R.State → Outcome Error (Unit {0}) × R.State))
      (cmd : CmdHeader) (attrs : CmdAttrs) (c : ReceiveCtx R)
      → HookEnds hook
      → Answers (call_hook R L hook cmd attrs c)
  unfolding call_hook
  call_hook-Answers none cmd attrs c h = record { ends = ends_ok tt }
  call_hook-Answers (some f) cmd attrs c h = record { ends = (h _ cmd attrs c.receiver).ends }

  settle-Ends :
      (n : ℕ) (x : Outcome Error (Unit {0}) × ReceiveCtx R) → Answers x → Ends (settle R L n x)
  unfolding settle
  settle-Ends n (ok u, c) h = ends_ok _
  settle-Ends n (err e, c) h = if-Ends (is_skip e) _ _ (ends_ok _) (ends_ok _)
  settle-Ends n (panic, c) h = ends_panic
  settle-Ends n (stuck, c) h = elim h.ends [ ]

  and_next-Ends :
      (x : Round R L) (f : Run R L → Round R L)
      → Ends x
      → ((r : Run R L) → Ends (f r))
      → Ends (and_next R L x f)
  unfolding and_next
  and_next-Ends (ok (next, r)) f h k = k r
  and_next-Ends (ok (stop e, r)) f h k = ends_ok _
  and_next-Ends (err e) f h k = ends_err e
  and_next-Ends panic f h k = ends_panic
  and_next-Ends stuck f h k = elim h [ ]

  and_loop-Ends :
      (x : Round R L) (f : Run R L → Received R L)
      → Ends x
      → ((r : Run R L) → Ends (f r))
      → Ends (and_loop R L x f)
  unfolding and_loop
  and_loop-Ends (ok (next, r)) f h k = k r
  and_loop-Ends (ok (stop e, r)) f h k = ends_ok _
  and_loop-Ends (err e) f h k = ends_err e
  and_loop-Ends panic f h k = ends_panic
  and_loop-Ends stuck f h k = elim h [ ]

  finish_open-Ends : (c : ReceiveCtx R) → Ends (finish_open R L c)
  unfolding finish_open
  finish_open-Ends c = elim (Option-cases c.current_subvol_info) [
    | inl e ↦ rw (finish_open, e) (ends_ok _)
    | inr (i, e) ↦ rw (finish_open, e) (finished-Ends _ (call-Answers R L calls finish_subvolume _))
  ]

  resumed_subvol-Ends :
      (attrs : CmdAttrs) (n : ℕ) (u : Option Uuid) (r : Run R L)
      → Ends (resumed_subvol R L attrs n u r)
  unfolding resumed_subvol
  resumed_subvol-Ends attrs n none r = ends_ok _
  resumed_subvol-Ends attrs n (some u) r = ends_ok _

  ruleset rounds = (
    bind-Ends, if-Ends, settle-Ends, and_next-Ends, finish_open-Ends, resumed_subvol-Ends,
    call_hook-Answers, run_process-Answers, call-Answers, Answers-bind_state, get_uint-Ends,
    ends_ok,
  )

  skip_command-Ends :
      (cmd : CmdHeader) (attrs : CmdAttrs) (r : Run R L) → Ends (skip_command R L cmd attrs r)
  unfolding skip_command
  skip_command-Ends cmd attrs r = search rounds

  post_op-Ends : (cmd : CmdHeader) (attrs : CmdAttrs) (r : Run R L) → Ends (post_op R L cmd attrs r)
  unfolding post_op
  post_op-Ends cmd attrs r = search (rounds, post)

  end_subvolume-Answers : (c : ReceiveCtx R) → Answers (end_subvolume R L c)
  unfolding end_subvolume
  end_subvolume-Answers c = record { ends = (call-Answers R L calls finish_subvolume c).ends }

  dispatch_command-Ends :
      (cmd : CmdHeader) (attrs : CmdAttrs) (r : Run R L) → Ends (dispatch_command R L cmd attrs r)
  unfolding dispatch_command
  dispatch_command-Ends cmd attrs r = search (rounds, post_op-Ends, end_subvolume-Answers)

  after_pre_op-Ends :
      (cmd : CmdHeader) (attrs : CmdAttrs) (n : ℕ) (x : Outcome Error (Unit {0}) × ReceiveCtx R)
      → Answers x
      → Ends (after_pre_op R L cmd attrs n x)
  unfolding after_pre_op
  after_pre_op-Ends cmd attrs n (ok u, c) h = dispatch_command-Ends cmd attrs _
  after_pre_op-Ends cmd attrs n (err e, c) h =
      settle-Ends n (err e, next_offset R c) (record { ends = ends_err e })
  after_pre_op-Ends cmd attrs n (panic, c) h = ends_panic
  after_pre_op-Ends cmd attrs n (stuck, c) h = elim h.ends [ ]

  process_command-Ends :
      (cmd : CmdHeader) (attrs : CmdAttrs) (r : Run R L) → Ends (process_command R L cmd attrs r)
  unfolding process_command
  process_command-Ends cmd attrs r = if-Ends _ _ _ (skip_command-Ends cmd attrs r) (
      after_pre_op-Ends cmd attrs r.stream_errors _
        (call_hook-Answers R.pre_op cmd attrs r.ctx pre))

  end_of_stream-Ends : (s : Scanner) (r : Run R L) → Ends (end_of_stream R L s r)
  unfolding end_of_stream
  end_of_stream-Ends s r = elim (Option-cases (scanner_err s)) [
    | inl e ↦ rw (end_of_stream, e) (search rounds)
    | inr (x, e) ↦ rw (end_of_stream, e) (ends_ok _)
  ]

  run_loop-Ends :
      (fuel : ℕ) (s : Scanner) (r : Run R L) → length s.reader < fuel → Ends (run_loop R L fuel s r)
  unfolding run_loop wrapped
  run_loop-Ends zero s r h = absurd (omega arith)
  run_loop-Ends (suc fuel) s r h = elim (Outcome-cases (scan s)) [
    | inl ((true, s'), e) ↦ rw (e) (
        and_loop-Ends _ _ (process_command-Ends (command s').0 (command s').1 r)
          (λ r'. run_loop-Ends fuel s' r' (omega (arith, scan-shorter s s' e))))
    | inl ((false, s'), e) ↦ rw (e) (end_of_stream-Ends s' r)
    | inr (inl (x, e)) ↦ rw (e) (ends_err _)
    | inr (inr (inl e)) ↦ rw (e) ends_panic
    | inr (inr (inr e)) ↦ absurd (scan-ne-stuck s e)
  ]

  -- ProcessSendStream ends on any bytes and in any context, with a result or a panic, if the calls
  -- of the receiver and its pre- and post-op do: the fuel never runs out.
  pub process_send_stream-ne-stuck :
      (b : Bytes) (c : ReceiveCtx R) → process_send_stream R L b c ≢ stuck
  unfolding process_send_stream new_scanner
  process_send_stream-ne-stuck b c = Ends-ne _ (run_loop-Ends (suc (length b)) _ _ (omega arith))
