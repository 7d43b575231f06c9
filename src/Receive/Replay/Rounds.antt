-- ===== src/Receive/Replay/Rounds.antt =====
-- A round of the loop of pkg/receive/receive.go on the command that was built for a call.
use btrsync.Common.{
  ℕ, ◌+◌, ◌≡◌, ◌≢◌, refl, ap, arith, none, ◌==◌, ltb, false, Bool-cases, inl, inr, if◌then◌else◌,
}
use btrsync.Common.Bytes.{Bytes, put_uint}
use btrsync.Common.Dict.{lookup, insert}
use btrsync.Common.Outcome.{Outcome, ok, err, panic, stuck}
use btrsync.Sendstream.Attrs.{CmdAttrs, index}
use btrsync.Sendstream.Attributes.{btrfs_send_a_ctransid, btrfs_send_a_uuid, btrfs_send_a_path}
use btrsync.Sendstream.Attrs.Setters.{
  set_ctransid, set_uuid, set_path, set_clone_uuid, set_clone_ctransid,
}
use btrsync.Sendstream.Attrs.Values.{Uuid}
use btrsync.Sendstream.Commands.{btrfs_send_c_end}
use btrsync.Sendstream.Headers.{CmdHeader}
use btrsync.Sendstream.Scanner.RoundTrip.{SameMap}
use btrsync.Receive.Attributes.{run_process-same, index-same}
use btrsync.Receive.Commands.{command_of, apply_op, IsOp}
use btrsync.Receive.Context.{Libraries, ReceiveCtx, UuidLaw, next_offset}
use btrsync.Receive.Dispatch.{run_process-command_of, get_u64, uuid_from_bytes-IsUuid}
use btrsync.Receive.Loop.{
  end_subvolume, next, Run, is_subvol_command, skip_command, resumed_subvol, dispatch_command,
  after_pre_op, call_hook, post_op, settle, count_error, and_next, process_command,
}
use btrsync.Receive.Receiver.{
  Error, Op, subvol, snapshot, mkfile, mkdir, mknod, mkfifo, mksock, symlink, rename, link, unlink,
  rmdir, write, encoded_write, clone, set_xattr, remove_xattr, truncate, chmod, chown, utimes,
  update_extent, enable_verity, fallocate, fileattr, finish_subvolume, Receiver,
}
use btrsync.Receive.Replay.{is_finish, opened_by, resumed, counted, judged, applied, replay_op}

is_finish-command_of : (op : Op) → ((command_of op).0 == btrfs_send_c_end) ≡ is_finish op
unfolding is_finish command_of
is_finish-command_of (subvol a b d) = refl
is_finish-command_of (snapshot a b d e f) = refl
is_finish-command_of (mkfile a b) = refl
is_finish-command_of (mkdir a b) = refl
is_finish-command_of (mknod a b d e) = refl
is_finish-command_of (mkfifo a b) = refl
is_finish-command_of (mksock a b) = refl
is_finish-command_of (symlink a b d) = refl
is_finish-command_of (rename a b) = refl
is_finish-command_of (link a b) = refl
is_finish-command_of (unlink a) = refl
is_finish-command_of (rmdir a) = refl
is_finish-command_of (write a b d) = refl
is_finish-command_of (encoded_write a b) = refl
is_finish-command_of (clone a b d e f g k) = refl
is_finish-command_of (set_xattr a b d) = refl
is_finish-command_of (remove_xattr a b) = refl
is_finish-command_of (truncate a b) = refl
is_finish-command_of (chmod a b) = refl
is_finish-command_of (chown a b d) = refl
is_finish-command_of (utimes a b d e) = refl
is_finish-command_of (update_extent a b d) = refl
is_finish-command_of (enable_verity a b d e f) = refl
is_finish-command_of (fallocate a b d e) = refl
is_finish-command_of (fileattr a b) = refl
is_finish-command_of finish_subvolume = refl

finish-ne : (op : Op) → is_finish op ≡ false → op ≢ finish_subvolume
unfolding is_finish
finish-ne op h e = let p : is_finish finish_subvolume ≡ false = rw (e) at h in cc

module _ (R : Receiver) (L : Libraries) (law : UuidLaw L) where
  module _ (attrs : CmdAttrs) (len crc : ℕ) where
    -- What `attrs` has of the subvolume that a command opens.
    abbrev Opens : Bytes → Uuid → ℕ → Type 0
    Opens path u t =
        (index attrs btrfs_send_a_path ≡ path)
        × (index attrs btrfs_send_a_uuid ≡ u)
        × (index attrs btrfs_send_a_ctransid ≡ put_uint 8 t)

    subvol-Opens :
        (path : Bytes) (u : Uuid) (t : ℕ)
        → SameMap attrs (command_of (subvol path u t)).1
        → Opens path u t
    unfolding command_of index lookup insert set_ctransid set_uuid set_path
    subvol-Opens path u t same = (
      index-same attrs (command_of (subvol path u t)).1 same btrfs_send_a_path,
      index-same attrs (command_of (subvol path u t)).1 same btrfs_send_a_uuid,
      index-same attrs (command_of (subvol path u t)).1 same btrfs_send_a_ctransid,
    )

    snapshot-Opens :
        (path : Bytes) (u : Uuid) (t : ℕ) (cu : Uuid) (ct : ℕ)
        → SameMap attrs (command_of (snapshot path u t cu ct)).1
        → Opens path u t
    unfolding command_of index lookup insert set_ctransid set_uuid set_path set_clone_uuid
        set_clone_ctransid
    snapshot-Opens path u t cu ct same = (
      index-same attrs (command_of (snapshot path u t cu ct)).1 same btrfs_send_a_path,
      index-same attrs (command_of (snapshot path u t cu ct)).1 same btrfs_send_a_uuid,
      index-same attrs (command_of (snapshot path u t cu ct)).1 same btrfs_send_a_ctransid,
    )

    -- A skipped command.
    skip_command-command_of :
        (op : Op) (r : Run R L)
        → IsOp op
        → SameMap attrs (command_of op).1
        → skip_command R L (record { len = len; cmd = (command_of op).0; crc = crc }) attrs r
          ≡ ok (next, record r { ctx = resumed R L op (next_offset R r.ctx) })
    unfolding skip_command resumed_subvol is_subvol_command resumed opened_by command_of next_offset
    skip_command-command_of (subvol path u t) r (hu, ht) same =
        let (e_path, e_uuid, e_ctransid) = subvol-Opens path u t same in
        rw (e_ctransid, get_u64 t ht, e_uuid, uuid_from_bytes-IsUuid L law u hu, e_path)
    skip_command-command_of (snapshot path u t cu ct) r (hu, ht, hcu, hct) same =
        let (e_path, e_uuid, e_ctransid) = snapshot-Opens path u t cu ct same in
        rw (e_ctransid, get_u64 t ht, e_uuid, uuid_from_bytes-IsUuid L law u hu, e_path)
    skip_command-command_of (mkfile a b) r h same = refl
    skip_command-command_of (mkdir a b) r h same = refl
    skip_command-command_of (mknod a b d e) r h same = refl
    skip_command-command_of (mkfifo a b) r h same = refl
    skip_command-command_of (mksock a b) r h same = refl
    skip_command-command_of (symlink a b d) r h same = refl
    skip_command-command_of (rename a b) r h same = refl
    skip_command-command_of (link a b) r h same = refl
    skip_command-command_of (unlink a) r h same = refl
    skip_command-command_of (rmdir a) r h same = refl
    skip_command-command_of (write a b d) r h same = refl
    skip_command-command_of (encoded_write a b) r h same = refl
    skip_command-command_of (clone a b d e f g k) r h same = refl
    skip_command-command_of (set_xattr a b d) r h same = refl
    skip_command-command_of (remove_xattr a b) r h same = refl
    skip_command-command_of (truncate a b) r h same = refl
    skip_command-command_of (chmod a b) r h same = refl
    skip_command-command_of (chown a b d) r h same = refl
    skip_command-command_of (utimes a b d e) r h same = refl
    skip_command-command_of (update_extent a b d) r h same = refl
    skip_command-command_of (enable_verity a b d e f) r h same = refl
    skip_command-command_of (fallocate a b d e) r h same = refl
    skip_command-command_of (fileattr a b) r h same = refl
    skip_command-command_of finish_subvolume r h same = refl

    module _ (no_pre : R.pre_op ≡ none) (no_post : R.post_op ≡ none) where
      post_op-none : (cmd : CmdHeader) (r : Run R L) → post_op R L cmd attrs r ≡ counted R L r
      unfolding post_op counted call_hook settle and_next
      post_op-none cmd r = rw no_post

      -- The errors that the loop settles are the ones that are counted up to the limit.
      settle-judged :
          (cmd : CmdHeader) (errors : ℕ) (p : Outcome Error (Unit {0}) × ReceiveCtx R)
          → and_next R L (settle R L errors p) (post_op R L cmd attrs) ≡ judged R L errors p
      unfolding settle and_next judged count_error
      settle-judged cmd errors (ok u, c) = post_op-none cmd _
      settle-judged cmd errors (err e, c) = ground (
        arith,
        post_op-none cmd (record { ctx = c; stream_errors = errors }),
        post_op-none cmd (record { ctx = c; stream_errors = errors + 1 }),
      )
      settle-judged cmd errors (panic, c) = refl
      settle-judged cmd errors (stuck, c) = refl

      dispatch_command-applied :
          (op : Op) (r : Run R L)
          → IsOp op
          → SameMap attrs (command_of op).1
          → dispatch_command R L (record { len = len; cmd = (command_of op).0; crc = crc }) attrs r
            ≡ applied R L op r
      unfolding dispatch_command applied
      dispatch_command-applied op r h same = elim (Bool-cases (is_finish op)) [
        | inl e ↦
            rw (is_finish-command_of op, e)
              (ground (
                arith,
                settle-judged (record { len = len; cmd = (command_of op).0; crc = crc })
                    r.stream_errors (end_subvolume R L r.ctx),
              ))
        | inr e ↦
            rw
              (
                is_finish-command_of op,
                e,
                run_process-same attrs (command_of op).1 same R L r.ctx _,
                run_process-command_of R L law len crc r.ctx op h (finish-ne op e),
              )
              (settle-judged _ r.stream_errors (apply_op R L op r.ctx))
      ]

      -- A round on the command of a call is that call, replayed.
      pub process_command-replay_op :
          (op : Op) (r : Run R L)
          → IsOp op
          → SameMap attrs (command_of op).1
          → process_command R L (record { len = len; cmd = (command_of op).0; crc = crc }) attrs r
            ≡ replay_op R L op r
      unfolding process_command replay_op after_pre_op call_hook
      process_command-replay_op op r h same =
          rw (skip_command-command_of op r h same, no_pre)
            (ap
              (λ t.
                if ltb r.ctx.current_offset r.ctx.start_offset
                then ok (next, record r { ctx = resumed R L op (next_offset R r.ctx) })
                else t)
              (dispatch_command-applied op r h same))
