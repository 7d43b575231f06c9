-- ===== src/Tests/Memory.antt =====
-- The theorem on the files in memory applied at a concrete map.
use btrsync.Common.{false, none, [], ◌∷◌, ◌≡◌}
use btrsync.Common.Bytes.{bytes_eq}
use btrsync.Common.Outcome.{ok}
use btrsync.Btrfs.EncodedWrite.{Codecs}
use btrsync.Receivers.MemFs.{MemFiles, MemFsReceiver, fmode_dir, fmode_file, mode_of, rename_op}
use btrsync.Receivers.MemFs.Modes.{rename_op-modes}

-- A file system that takes every call and keeps nothing.
abbrev no_files : MemFiles
no_files = record {
  Fs = Unit;
  join = λ ps. [];
  split_list = λ p. p ∷ [];
  is_exist = λ e. false;
  make_dir = λ p perm fs. (ok tt, fs);
  open_create = λ p fs. (ok 3, fs);
  open_write = λ p fs. (ok 3, fs);
  seek = λ fd offset fs. (ok tt, fs);
  write_file = λ fd b fs. (ok tt, fs);
  truncate_file = λ fd size fs. (ok tt, fs);
  close_file = λ fd fs. (ok tt, fs);
  rename_path = λ p q fs. (ok tt, fs);
  remove_path = λ p fs. (ok tt, fs);
}

abbrev codecs : Codecs
codecs = record { zlib = λ b. none; lzo = λ b n m. none; zstd = λ b. none }

-- A file "a" and a directory "b".
abbrev two_names : MemFsReceiver no_files codecs
two_names = record {
  fs = tt;
  cur_files = (97 ∷ [], fmode_file) ∷ (98 ∷ [], fmode_dir) ∷ [];
  symlinks = [];
}

rename_op-modes_example :
    (mode_of no_files codecs
        (99 ∷ [])
        ((rename_op no_files codecs (97 ∷ []) (99 ∷ []) two_names).1.cur_files)
      ≡ fmode_file)
    × ((rename_op no_files codecs (97 ∷ []) (99 ∷ []) two_names).1.symlinks ≡ two_names.symlinks)
unfolding bytes_eq mode_of
rename_op-modes_example = rename_op-modes no_files codecs (97 ∷ []) (99 ∷ []) (99 ∷ []) two_names
