-- ===== src/Receivers/Nop.antt =====
-- pkg/receive/receivers/nop/nop.go: a receiver whose methods all return nil.
use btrsync.Common.Outcome.{Outcome, ok}
use btrsync.Common.{none}
use btrsync.Receive.Receiver.{Error, Op, Receiver, ReceiveContext}

unfoldable pub nop_call : ReceiveContext → Op → Unit {0} → Outcome Error (Unit {0}) × Unit {0}
nop_call ctx op n = (ok tt, n)

abbrev pub nop_receiver : Receiver
nop_receiver = record { State = Unit; call = nop_call; pre_op = none; post_op = none }
