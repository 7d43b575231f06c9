-- ===== src/Receive/Process/Subvolumes.antt =====
-- The process functions of pkg/receive/send_ops.go for subvolumes and snapshots.
use btrsync.Common.{[], ◌∷◌, none, some}
use btrsync.Common.Action.{◌>>=◌, ◌>>◌, lift}
use btrsync.Common.Outcome.{ok, bind_state}
use btrsync.Sendstream.Attributes.{
  btrfs_send_a_clone_ctransid, btrfs_send_a_clone_uuid, btrfs_send_a_ctransid, btrfs_send_a_path,
  btrfs_send_a_uuid,
}
use btrsync.Sendstream.Attrs.{CmdAttrs}
use btrsync.Sendstream.Attrs.Getters.{
  get_clone_ctransid, get_clone_uuid, get_ctransid, get_path, get_uuid,
}
use btrsync.Receive.Context.{Libraries, M, call, set_subvol}
use btrsync.Receive.Process.Ensure.{ensure_attrs, parsed_uuid}
use btrsync.Receive.Receiver.{Receiver, subvol, snapshot, finish_subvolume}

module _ (R : Receiver) (L : Libraries) where
  -- The subvolume that is still open is finished first.
  unfoldable pub finish_current : M R (Unit {0})
  finish_current c = elim c.current_subvol_info [
    | none ↦ (ok tt, c)
    | some info ↦ bind_state (call R finish_subvolume c) (λ _. set_subvol R none)
  ]

  unfoldable pub process_subvol : CmdAttrs → M R (Unit {0})
  unfolding finish_current
  process_subvol attrs = do
    ensure_attrs attrs (btrfs_send_a_path ∷ btrfs_send_a_uuid ∷ btrfs_send_a_ctransid ∷ [])
    finish_current
    let path = get_path attrs
    ctransid ← lift (get_ctransid attrs)
    uuid ← lift (parsed_uuid (get_uuid L.uuid_from_bytes attrs))
    set_subvol R (some (record { path = path; uuid = uuid; ctransid = ctransid }))
    call R (subvol path uuid ctransid)

  unfoldable pub process_snapshot : CmdAttrs → M R (Unit {0})
  unfolding finish_current
  process_snapshot attrs = do
    ensure_attrs attrs (
        btrfs_send_a_path ∷ btrfs_send_a_uuid ∷ btrfs_send_a_ctransid ∷ btrfs_send_a_clone_uuid
        ∷ btrfs_send_a_clone_ctransid ∷ [])
    finish_current
    let path = get_path attrs
    snapuuid ← lift (parsed_uuid (get_uuid L.uuid_from_bytes attrs))
    ctransid ← lift (get_ctransid attrs)
    clone_uuid ← lift (parsed_uuid (get_clone_uuid L.uuid_from_bytes attrs))
    clone_ctransid ← lift (get_clone_ctransid attrs)
    set_subvol R (some (record { path = path; uuid = snapuuid; ctransid = ctransid }))
    call R (snapshot path snapuuid ctransid clone_uuid clone_ctransid)
