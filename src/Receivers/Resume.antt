-- ===== src/Receivers/Resume.antt =====
-- How a directory receiver of pkg/receive/receivers/directory/directory.go resumes in the loop of
-- pkg/receive/receive.go.
use btrsync.Common.{
  ℕ, ◌+◌, ◌^◌, ◌<◌, ◌≤◌, false, none, List, [], ◌∷◌, length, ltb, ◌≡◌, refl, ◌∙◌, ap, arith, lt→ltb,
}
use btrsync.Common.Bytes.{Bytes}
use btrsync.Common.Outcome.{ok, panic}
use btrsync.Btrfs.EncodedWrite.{Codecs}
use btrsync.Sendstream.Attrs.{CmdAttrs}
use btrsync.Sendstream.Headers.{CmdHeader}
use btrsync.Receive.Context.{Libraries, ReceiveCtx, next_offset, receive_context}
use btrsync.Receive.Loop.{
  Run, Round, dispatch_command, end_subvolume, next, and_next, settle, process_command,
  after_pre_op, call_hook,
}
use btrsync.Receive.Receiver.{finish_subvolume, Receiver, is_skip}
use btrsync.Receive.Context
use btrsync.Receive.Loop
use btrsync.Receivers.Directory
use btrsync.Sendstream.Commands.{btrfs_send_c_end}
use btrsync.Receivers.Os.{Os}
use btrsync.Receivers.Directory.{
  DirectoryReceiver, directory_receiver, pre_op, post_op, write_offset, subvol_op, snapshot_op,
  read_offset, keep_offset, saved_offset, current_offset_path, on_world, new_directory,
}

-- The loop over commands, as long as no round leaves it.
unfoldable pub process_commands :
    (R : Receiver) (L : Libraries) → List (CmdHeader × CmdAttrs) → Run R L → Round R L
unfolding and_next process_command
process_commands R L [] r = ok (next, r)
process_commands R L ((hdr, attrs) ∷ cs) r =
    and_next R L (process_command R L hdr attrs r) (process_commands R L cs)

le→ltb_false : (a b : ℕ) → b ≤ a → ltb a b ≡ false
le→ltb_false a b h = ground arith

module _ (O : Os) (codecs : Codecs) (dest_path offset_directory : Bytes) (L : Libraries) where
  abbrev Dir : Receiver
  Dir = directory_receiver O codecs dest_path offset_directory

  -- The variables of the loop, the offset advanced by some commands.
  unfoldable pub advanced : ℕ → Run Dir L → Run Dir L
  advanced n r = record r { ctx = record (r.ctx) { current_offset = r.ctx.current_offset + n } }

  process_command-skipped :
      (hdr : CmdHeader) (attrs : CmdAttrs) (r : Run Dir L)
      → r.ctx.start_offset ≤ r.ctx.current_offset
      → r.ctx.current_offset < r.ctx.receiver.current_offset
      → r.ctx.receiver.current_offset < 2 ^ 64
      → process_command Dir L hdr attrs r ≡ ok (next, advanced 1 r)
  unfolding process_command advanced pre_op after_pre_op call_hook settle next_offset is_skip
      receive_context
  process_command-skipped hdr attrs r started behind bound =
      rw
        (
          process_command,
          le→ltb_false r.ctx.current_offset r.ctx.start_offset started,
          lt→ltb r.ctx.current_offset r.ctx.receiver.current_offset behind,
        )
        (ap (λ k. ok (next, record r { ctx = record (r.ctx) { current_offset = k } }))
          (omega (arith, behind, bound)))

  -- With a directory receiver that resumes at a saved offset below 2^64, the commands before that
  -- offset, read one by one by the loop, change nothing but the offset of the stream: no file is
  -- touched and no error counted. The loop is not seeking to a start offset of its own.
  pub process_commands-skipped :
      (cs : List (CmdHeader × CmdAttrs)) (r : Run Dir L)
      → r.ctx.start_offset ≤ r.ctx.current_offset
      → r.ctx.current_offset + length cs ≤ r.ctx.receiver.current_offset
      → r.ctx.receiver.current_offset < 2 ^ 64
      → process_commands Dir L cs r ≡ ok (next, advanced (length cs) r)
  unfolding process_commands advanced
  process_commands-skipped [] r started behind bound =
      ap (λ k. ok (next, record r { ctx = record (r.ctx) { current_offset = k } })) (omega arith)
  process_commands-skipped ((hdr, attrs) ∷ cs) r started behind bound =
      ap (λ x. and_next Dir L x (process_commands Dir L cs))
        (process_command-skipped hdr attrs r started (omega (arith, behind)) bound)
      ∙ process_commands-skipped cs (advanced 1 r) (omega (arith, started)) (omega (arith, behind))
          bound
      ∙ ap (λ k. ok (next, record r { ctx = record (r.ctx) { current_offset = k } })) (omega arith)

  -- The post-op of a command of which the offset is to be saved, without a current subvolume.
  post_op-panic :
      (hdr : CmdHeader) (attrs : CmdAttrs) (r : Run Dir L)
      → r.ctx.current_subvol_info ≡ none
      → r.ctx.receiver.current_offset ≤ r.ctx.current_offset
      → Loop.post_op Dir L hdr attrs r ≡ panic
  unfolding Loop.post_op call_hook post_op write_offset current_offset_path receive_context settle
  post_op-panic hdr attrs r closed caught =
      rw
        (
          Loop.post_op,
          le→ltb_false r.ctx.current_offset r.ctx.receiver.current_offset caught,
          closed,
        )
        refl

  -- An END command that is not honored ends in a panic with a directory receiver whose
  -- FinishSubvolume succeeds: the loop has cleared the current subvolume when the post-op asks for
  -- its UUID. Neither the receiver nor the start offset of the loop is ahead of the offset of the
  -- stream.
  pub process_command-end_panic :
      (hdr : CmdHeader) (attrs : CmdAttrs) (r : Run Dir L)
      (n : DirectoryReceiver O codecs dest_path offset_directory)
      → hdr.cmd ≡ btrfs_send_c_end
      → r.ctx.honor_end_cmd ≡ false
      → r.ctx.start_offset ≤ r.ctx.current_offset
      → r.ctx.receiver.current_offset ≤ r.ctx.current_offset
      → Directory.call O codecs dest_path offset_directory
          (receive_context Dir r.ctx)
          finish_subvolume
          r.ctx.receiver
        ≡ (ok tt, n)
      → n.current_offset ≤ r.ctx.current_offset
      → process_command Dir L hdr attrs r ≡ panic
  unfolding process_command pre_op after_pre_op call_hook dispatch_command settle end_subvolume
      Context.call receive_context
  process_command-end_panic hdr attrs r n is_end honored started caught finish kept =
      rw
        (
          process_command,
          le→ltb_false r.ctx.current_offset r.ctx.start_offset started,
          le→ltb_false r.ctx.current_offset r.ctx.receiver.current_offset caught,
          dispatch_command,
          is_end,
          honored,
          finish,
        )
        (post_op-panic _ attrs _ refl kept)
