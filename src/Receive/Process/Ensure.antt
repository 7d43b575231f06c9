-- ===== src/Receive/Process/Ensure.antt =====
-- `ensureAttrs` of pkg/receive/send_ops.go, and the errors of parsed values.
use btrsync.Common.{Option, none, some, List, [], ◌∷◌}
use btrsync.Common.Action.{lift}
use btrsync.Common.Dict.{lookup}
use btrsync.Common.Outcome.{Outcome, ok, err, panic, stuck}
use btrsync.Sendstream.Attributes.{SendAttribute}
use btrsync.Sendstream.Attrs.{CmdAttrs}
use btrsync.Sendstream.Attrs.Values.{Uuid}
use btrsync.Sendstream.Scanner
use btrsync.Receive.Context.{M}
use btrsync.Receive.Receiver.{Error, missing_attribute, invalid_uuid, stream, Receiver}

-- The loop over the keys.
unfoldable pub check_keys : CmdAttrs → List SendAttribute → Outcome Error (Unit {0})
check_keys attrs [] = ok tt
check_keys attrs (k ∷ keys) = elim (lookup k attrs) [
  | none ↦ err (missing_attribute k)
  | some v ↦ check_keys attrs keys
]

abbrev pub ensure_attrs : {R : Receiver} → CmdAttrs → List SendAttribute → M R (Unit {0})
ensure_attrs attrs keys = lift (check_keys attrs keys)

unfoldable pub parsed_uuid : Option Uuid → Outcome Error Uuid
parsed_uuid none = err invalid_uuid
parsed_uuid (some u) = ok u

-- An error of the send stream package, wrapped.
unfoldable pub wrapped : {A : Type 0} → Outcome Scanner.Error A → Outcome Error A
wrapped (ok a) = ok a
wrapped (err e) = err (stream e)
wrapped panic = panic
wrapped stuck = stuck
