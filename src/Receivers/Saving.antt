-- ===== src/Receivers/Saving.antt =====
-- The offset file of pkg/receive/receivers/directory/directory.go: what a run saves, the next reads.
use btrsync.Common.{ℕ, false, ◌≤◌, some, [], ◌∷◌, length, ltb, ◌≡◌, refl, ap, arith, if◌then◌else◌}
use btrsync.Common.Bytes.{Bytes}
use btrsync.Common.Outcome.{Outcome, ok, err, panic, stuck, bind_state}
use btrsync.Btrfs.EncodedWrite.{Codecs}
use btrsync.Sendstream.Attrs.{CmdAttrs}
use btrsync.Sendstream.Headers.{CmdHeader}
use btrsync.Receive.Receiver.{Error, ReceiveContext, ReceivingSubvolume, subvol, skip_command}
use btrsync.Receivers.Os.{Os, read_only, create_read_write, sys_write, sys_mkdir_all, sys_close}
use btrsync.Receivers.Files.{with_file, then_close}
use btrsync.Receivers.Directory.{
  DirectoryReceiver, pre_op, post_op, call, write_offset, subvol_op, read_offset, keep_offset,
  saved_offset, current_offset_path, on_world, new_directory,
}

le→ltb_false : (a b : ℕ) → b ≤ a → ltb a b ≡ false
le→ltb_false a b h = ground arith

-- A pair by its first component.
pair_eq : {A B : Type 0} (p : Outcome Error A × B) {a : A} → p.0 ≡ ok a → p ≡ (ok a, p.1)
pair_eq (r, w) h = ap (λ x. (x, w)) h

module _ (O : Os) where
  -- A file opens for reading, and a number is read from it.
  abbrev pub Saved : Bytes → ℕ → O.World → Type 0
  Saved path n w =
      (fd : ℕ) × (w' : O.World) × (w'' : O.World) × (O.open_file path read_only 0 w ≡ (ok fd, w'))
      × (O.scan_uint fd w' ≡ (ok n, w''))

  -- What a number that is written to a file is read back as, if the file is not longer than its
  -- digits: it is not truncated. The size of a missing file is 0. Making directories changes no file.
  pub record OffsetFile (path : Bytes) (size : O.World → ℕ) : Type 0 where
    pub written :
        (n fd : ℕ) (w w' w'' : O.World)
        → size w ≤ length (O.decimal n)
        → O.open_file path create_read_write 0o600 w ≡ (ok fd, w')
        → O.run (sys_write fd (O.decimal n)) w' ≡ (ok tt, w'')
        → Saved path n ((O.run (sys_close fd) w'').1)
    pub kept :
        (n : ℕ) (dir : Bytes) (w w' : O.World)
        → O.run (sys_mkdir_all dir 0o755) w ≡ (ok tt, w')
        → Saved path n w
        → Saved path n w'

  with_file-Saved :
      (path : Bytes) (size : O.World → ℕ) (F : OffsetFile path size) (n : ℕ) (w : O.World)
      → size w ≤ length (O.decimal n)
      → (opened : Outcome Error ℕ × O.World) → O.open_file path create_read_write 0o600 w ≡ opened
      → (bind_state opened (λ fd. then_close O fd (O.run (sys_write fd (O.decimal n))))).0 ≡ ok tt
      → Saved path n
          ((bind_state opened (λ fd. then_close O fd (O.run (sys_write fd (O.decimal n))))).1)
  unfolding then_close
  with_file-Saved path size F n w short (ok fd, w') e h =
      F.written n fd w w' _ short e (pair_eq (O.run (sys_write fd (O.decimal n)) w') h)
  with_file-Saved path size F n w short (err x, w') e h = cc
  with_file-Saved path size F n w short (panic, w') e h = cc
  with_file-Saved path size F n w short (stuck, w') e h = cc

module _ (O : Os) (codecs : Codecs) (dest_path offset_directory : Bytes) where
  abbrev State : Type 0
  State = DirectoryReceiver O codecs dest_path offset_directory

  abbrev pub path_of : ReceivingSubvolume → Bytes
  path_of info = O.paths.join (dest_path ∷ offset_directory ∷ O.uuid_string info.uuid ∷ [])

  read_offset-Saved :
      (path : Bytes) (k : ℕ) (n : State)
      → Saved O path k n.world
      → ((read_offset O codecs dest_path offset_directory path n).0 ≡ ok tt)
        × ((read_offset O codecs dest_path offset_directory path n).1.current_offset ≡ k)
  unfolding read_offset on_world saved_offset then_close keep_offset
  read_offset-Saved path k n (fd, w', w'', opened, scanned) = rw (opened, scanned) (refl, refl)

  post_op-Saved :
      (size : O.World → ℕ) (ctx : ReceiveContext) (info : ReceivingSubvolume) (hdr : CmdHeader)
      (attrs : CmdAttrs) (n : State)
      → OffsetFile O (path_of info) size
      → ctx.current_subvolume ≡ some info
      → n.current_offset ≤ ctx.current_offset
      → size n.world ≤ length (O.decimal ctx.current_offset)
      → (post_op O codecs dest_path offset_directory ctx hdr attrs n).0 ≡ ok tt
      → Saved O
          (path_of info)
          ctx.current_offset
          ((post_op O codecs dest_path offset_directory ctx hdr attrs n).1.world)
  unfolding post_op write_offset current_offset_path on_world with_file
  post_op-Saved size ctx info hdr attrs n F open_subvolume caught short =
      rw (post_op, le→ltb_false ctx.current_offset n.current_offset caught, open_subvolume)
        (with_file-Saved O (path_of info) size F ctx.current_offset n.world short
          (O.open_file (path_of info) create_read_write 0o600 n.world) refl)

  -- The receiver of a run behind the command of its subvolume.
  abbrev pub resumed :
      ReceiveContext → ReceivingSubvolume → O.World → Outcome Error (Unit {0}) × State
  resumed ctx info w =
      call O codecs dest_path offset_directory ctx (subvol info.path info.uuid info.ctransid)
        (new_directory O codecs dest_path offset_directory w)

  subvol-Saved :
      (size : O.World → ℕ) (ctx : ReceiveContext) (info : ReceivingSubvolume) (k : ℕ) (w : O.World)
      → OffsetFile O (path_of info) size
      → ctx.current_subvolume ≡ some info
      → (O.run (sys_mkdir_all (O.paths.dir (path_of info)) 0o755) w).0 ≡ ok tt
      → Saved O (path_of info) k w
      → ((resumed ctx info w).0 ≡ ok tt) × ((resumed ctx info w).1.current_offset ≡ k)
  unfolding call subvol_op current_offset_path on_world read_offset keep_offset new_directory
  subvol-Saved size ctx info k w F open_subvolume made saved =
      let done = pair_eq (O.run (sys_mkdir_all (O.paths.dir (path_of info)) 0o755) w) made in
      rw (open_subvolume, done) (read_offset-Saved (path_of info) k _ (F.kept k _ w _ done saved))

  pre_op-offset :
      (ctx : ReceiveContext) (hdr : CmdHeader) (attrs : CmdAttrs) (n : State) (k : ℕ)
      → n.current_offset ≡ k
      → (pre_op O codecs dest_path offset_directory ctx hdr attrs n).0
        ≡ (if ltb ctx.current_offset k then err skip_command else ok tt)
  unfolding pre_op
  pre_op-offset ctx hdr attrs n k h = ground (arith, h)

  -- The world that a post-op leaves.
  abbrev pub after_post_op : ReceiveContext → CmdHeader → CmdAttrs → State → O.World
  after_post_op ctx hdr attrs n =
      (post_op O codecs dest_path offset_directory ctx hdr attrs n).1.world

  -- What the post-op of the directory receiver saves, the next run resumes from: on the world that
  -- a successful post-op at an offset leaves, a new receiver that gets the same subvolume reads
  -- the offset back without an error, and its pre-op skips exactly the commands before that
  -- offset. The receiver was not itself behind the offset, the file of the offset is not longer
  -- than the digits of the offset, making its directory succeeds, and a number that is written to
  -- a file that is not longer is read back, with directories made after it or not.
  pub pre_op-post_op :
      (size : O.World → ℕ) (ctx ctx' later : ReceiveContext) (info : ReceivingSubvolume)
      (hdr hdr' : CmdHeader) (attrs attrs' : CmdAttrs) (n : State)
      → OffsetFile O (path_of info) size
      → ctx.current_subvolume ≡ some info
      → ctx'.current_subvolume ≡ some info
      → n.current_offset ≤ ctx.current_offset
      → size n.world ≤ length (O.decimal ctx.current_offset)
      → (post_op O codecs dest_path offset_directory ctx hdr attrs n).0 ≡ ok tt
      → (O.run (sys_mkdir_all (O.paths.dir (path_of info)) 0o755) (after_post_op ctx hdr attrs n)).0
        ≡ ok tt
      → ((resumed ctx' info (after_post_op ctx hdr attrs n)).0 ≡ ok tt)
        × ((pre_op O codecs dest_path offset_directory later hdr' attrs'
              (resumed ctx' info (after_post_op ctx hdr attrs n)).1).0
            ≡ (if ltb later.current_offset ctx.current_offset then err skip_command else ok tt))
  pre_op-post_op size ctx ctx' later info hdr hdr' attrs attrs' n F opened opened' caught short done
        made =
      let saved = post_op-Saved size ctx info hdr attrs n F opened caught short done in
      let (read, offset) =
        subvol-Saved size ctx' info ctx.current_offset (after_post_op ctx hdr attrs n) F opened'
          made saved in
      (read, pre_op-offset later hdr' attrs' _ ctx.current_offset offset)
