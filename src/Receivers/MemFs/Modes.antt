-- ===== src/Receivers/MemFs/Modes.antt =====
-- What is recorded of a file that is renamed, in pkg/receive/receivers/memfs/memfs.go.
use btrsync.Common.{Bool, true, false, Option, none, some, ◌≡◌, refl, ap, ◌∙◌, if◌then◌else◌}
use btrsync.Common.Bytes.{Bytes, bytes_eq}
use btrsync.Common.Texts.{get_text, set_text, get_text-delete_text, get_text-set_text}
use btrsync.Btrfs.EncodedWrite.{Codecs}
use btrsync.Receivers.MemFs.{
  Mode, fmode_none, MemFiles, MemFsReceiver, mode_of, move_mode, on_fs, rename_op,
}

module _ (F : MemFiles) (codecs : Codecs) where
  -- After a Rename of the in-memory receiver, whether the file system renames or gives an error,
  -- no mode is recorded of the old name, of the new name, if it is another, the mode that was
  -- recorded of the old one, and of any other name the mode that was recorded before; the symbolic
  -- links that are recorded stay as they were, one under the old name too.
  pub rename_op-modes :
      (old new name : Bytes) (n : MemFsReceiver F codecs)
      → (mode_of F codecs name ((rename_op F codecs old new n).1.cur_files) ≡ (
          if bytes_eq old name
          then fmode_none
          else if bytes_eq new name
          then mode_of F codecs old n.cur_files
          else mode_of F codecs name n.cur_files))
        × ((rename_op F codecs old new n).1.symlinks ≡ n.symlinks)
  unfolding rename_op move_mode on_fs mode_of
  rename_op-modes old new name n = (
    ap to_mode (
          get_text-delete_text old name
            (set_text new (mode_of F codecs old n.cur_files) n.cur_files)
          ∙ ap (λ o. if bytes_eq old name then none else o)
              (get_text-set_text new name (mode_of F codecs old n.cur_files) n.cur_files))
        ∙ split (bytes_eq old name) (bytes_eq new name),
    refl,
  )
    where
      to_mode : Option Mode → Mode
      to_mode o = elim o [ none ↦ fmode_none | some mode ↦ mode ]

      split :
          (b c : Bool)
          → to_mode (
              if b
              then none
              else if c
              then some (mode_of F codecs old n.cur_files)
              else get_text name n.cur_files)
            ≡ (if b
                then fmode_none
                else if c
                then mode_of F codecs old n.cur_files
                else mode_of F codecs name n.cur_files)
      split true c = refl
      split false true = refl
      split false false = refl
