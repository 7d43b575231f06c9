-- ===== src/Receivers/MemFs.antt =====
-- pkg/receive/receivers/memfs/memfs.go: a receiver that keeps files in memory. What it exports for
-- FUSE (`OnAdd` and what that calls) is left out.
pub mod Modes
use btrsync.Common.{
  ℕ, Bool, true, false, Option, none, some, List, [], ◌∷◌, ◌≡◌, refl, arith, if◌then◌else◌,
}
use btrsync.Common.Bytes.{Bytes, bytes_eq, bytes_eq_iff}
use btrsync.Common.Texts.{get_text, delete_text, set_text}
use btrsync.Common.Int.{ℤ, int64}
use btrsync.Common.Outcome.{Outcome, ok, err, panic, stuck, bind_state}
use btrsync.Common.Action.{Action, ◌>>=◌, ◌>>◌, lift}
use btrsync.Btrfs.EncodedWrite.{Codecs, EncodedWriteOp, decompress}
use btrsync.Receive.Receiver.{
  Error, not_supported, decompress_failed, Op, subvol, snapshot, mkfile, mkdir, mknod, mkfifo,
  mksock, symlink, rename, link, unlink, rmdir, write, encoded_write, clone, set_xattr,
  remove_xattr, truncate, chmod, chown, utimes, update_extent, enable_verity, fallocate, fileattr,
  finish_subvolume, Receiver, ReceiveContext,
}

-- `fmode`, with the zero value that a missing key reads as.
pub data Mode : Type 0 where
  fmode_none fmode_dir fmode_file : Mode

-- The file system of github.com/blang/vfs/memfs, and `filepath` of the standard library. `open_create`
-- and `open_write` are `OpenFile` with `os.O_CREATE` and `os.O_WRONLY`.
pub record MemFiles : Type 1 where
  pub Fs : Type 0
  pub join : List Bytes → Bytes
  pub split_list : Bytes → List Bytes
  pub is_exist : Error → Bool
  pub make_dir : Bytes → ℕ → Fs → Outcome Error (Unit {0}) × Fs
  pub open_create : Bytes → Fs → Outcome Error ℕ × Fs
  pub open_write : Bytes → Fs → Outcome Error ℕ × Fs
  pub seek : ℕ → ℤ → Fs → Outcome Error (Unit {0}) × Fs
  pub write_file : ℕ → Bytes → Fs → Outcome Error (Unit {0}) × Fs
  pub truncate_file : ℕ → ℤ → Fs → Outcome Error (Unit {0}) × Fs
  pub close_file : ℕ → Fs → Outcome Error (Unit {0}) × Fs
  pub rename_path : Bytes → Bytes → Fs → Outcome Error (Unit {0}) × Fs
  pub remove_path : Bytes → Fs → Outcome Error (Unit {0}) × Fs

module _ (F : MemFiles) (codecs : Codecs) where
  pub record MemFsReceiver : Type 0 where
    pub fs : F.Fs
    pub cur_files : List (Bytes × Mode)
    pub symlinks : List (Bytes × Bytes)

  -- `New`, with what `memfs.Create` gives.
  unfoldable pub new_memfs : F.Fs → MemFsReceiver
  new_memfs fs = record { fs = fs; cur_files = []; symlinks = [] }

  abbrev pub D : Type 0 → Type 0
  D = Action Error MemFsReceiver

  unfoldable pub on_fs : {A : Type 0} → Action Error F.Fs A → D A
  on_fs f n = let (r, fs) = f n.fs in (r, record n { fs = fs })

  -- `n.curFiles[name]`, and the changes of the two maps.
  unfoldable pub mode_of : Bytes → List (Bytes × Mode) → Mode
  unfolding get_text
  mode_of name files = elim (get_text name files) [ none ↦ fmode_none | some mode ↦ mode ]

  unfoldable pub set_mode : Bytes → Mode → D (Unit {0})
  unfolding set_text
  set_mode name mode n = (ok tt, record n { cur_files = set_text name mode n.cur_files })

  unfoldable pub forget_mode : Bytes → D (Unit {0})
  unfolding delete_text
  forget_mode name n = (ok tt, record n { cur_files = delete_text name n.cur_files })

  unfoldable pub move_mode : Bytes → Bytes → D (Unit {0})
  unfolding mode_of set_text delete_text
  move_mode old new n = (
    ok tt,
    record n { cur_files = delete_text old (set_text new (mode_of old n.cur_files) n.cur_files) },
  )

  unfoldable pub set_symlink : Bytes → Bytes → D (Unit {0})
  unfolding set_text
  set_symlink name target n = (ok tt, record n { symlinks = set_text name target n.symlinks })

  unfoldable pub forget_symlink : Bytes → D (Unit {0})
  unfolding delete_text
  forget_symlink name n = (ok tt, record n { symlinks = delete_text name n.symlinks })

  -- `ctx.ResolvePath`, and what follows with its result.
  unfoldable pub at_path : ReceiveContext → Bytes → (Bytes → D (Unit {0})) → D (Unit {0})
  at_path ctx path f = elim ctx.current_subvolume [
    | none ↦ lift panic
    | some info ↦ f (F.join (info.path ∷ path ∷ []))
  ]

  -- An error of `Mkdir` for a directory that exists is passed over.
  unfoldable pub settle_dir : Outcome Error (Unit {0}) × F.Fs → Outcome Error (Unit {0}) × F.Fs
  settle_dir (ok u, fs) = (ok tt, fs)
  settle_dir (err e, fs) = (if F.is_exist e then ok tt else err e, fs)
  settle_dir (panic, fs) = (panic, fs)
  settle_dir (stuck, fs) = (stuck, fs)

  -- The loop of `Subvol`; `fs.ModeDir` is the bit 31.
  unfoldable pub make_dirs : Bytes → List Bytes → D (Unit {0})
  unfolding on_fs settle_dir
  make_dirs this [] = lift (ok tt)
  make_dirs this (dir ∷ dirs) = do
    on_fs (λ fs. settle_dir (F.make_dir (F.join (this ∷ dir ∷ [])) 0x80000000 fs))
    make_dirs (F.join (this ∷ dir ∷ [])) dirs

  unfoldable pub subvol_op : Bytes → D (Unit {0})
  unfolding make_dirs set_mode
  subvol_op path = do make_dirs (46 ∷ []) (F.split_list path); set_mode path fmode_dir

  unfoldable pub mkfile_op : Bytes → D (Unit {0})
  unfolding set_mode on_fs
  mkfile_op name = do set_mode name fmode_file; on_fs (do fd ← F.open_create name; F.close_file fd)

  -- `defer f.Close()`
  unfoldable pub then_close : {A : Type 0} → ℕ → D A → D A
  unfolding on_fs
  then_close fd body n = let (r, n') = body n in (r, record n' { fs = (F.close_file fd n'.fs).1 })

  -- The mode is set whether the write succeeds or not.
  unfoldable pub write_opened : Bytes → ℕ → ℕ → Bytes → D (Unit {0})
  unfolding on_fs set_mode
  write_opened name fd offset content = do
    on_fs (F.seek fd (int64 offset))
    (λ n.
        (let (r, fs) = F.write_file fd content n.fs in
          (r, (set_mode name fmode_file (record n { fs = fs })).1)))

  unfoldable pub write_op : Bytes → ℕ → Bytes → D (Unit {0})
  unfolding on_fs then_close write_opened
  write_op name offset content = do
    fd ← on_fs (F.open_write name)
    then_close fd (write_opened name fd offset content)

  unfoldable pub truncate_op : Bytes → ℕ → D (Unit {0})
  unfolding on_fs then_close
  truncate_op name size = do
    fd ← on_fs (F.open_write name)
    then_close fd (on_fs (F.truncate_file fd (int64 size)))

  unfoldable pub encoded_write_op : ReceiveContext → Bytes → EncodedWriteOp → D (Unit {0})
  unfolding decompress at_path write_op
  encoded_write_op ctx path op = elim (decompress codecs op) [
    | none ↦ lift (err decompress_failed)
    | some content ↦ at_path ctx path λ name. write_op name op.offset content
  ]

  unfoldable pub rename_op : Bytes → Bytes → D (Unit {0})
  unfolding move_mode on_fs
  rename_op old new = do move_mode old new; on_fs (F.rename_path old new)

  unfoldable pub call : ReceiveContext → Op → D (Unit {0})
  unfolding subvol_op at_path mkfile_op set_mode on_fs set_symlink rename_op forget_mode
      forget_symlink write_op encoded_write_op truncate_op
  call ctx (subvol path uuid ctransid) = subvol_op path
  call ctx (mkfile path ino) = at_path ctx path λ name. mkfile_op name
  call ctx (mkdir path ino) =
      at_path ctx path λ name. set_mode name fmode_dir >> on_fs (F.make_dir name 0o755)
  call ctx (symlink path ino link_to) =
      at_path ctx path λ name. at_path ctx link_to λ target. set_symlink name target
  call ctx (rename old_path new_path) =
      at_path ctx old_path λ old. at_path ctx new_path λ new. rename_op old new
  call ctx (unlink path) =
      at_path ctx path
        λ name. forget_mode name >> (forget_symlink name >> on_fs (F.remove_path name))
  call ctx (rmdir path) = at_path ctx path λ name. forget_mode name >> on_fs (F.remove_path name)
  call ctx (write path offset content) = at_path ctx path λ name. write_op name offset content
  call ctx (encoded_write path op) = encoded_write_op ctx path op
  call ctx (truncate path size) = at_path ctx path λ name. truncate_op name size
  call ctx (fallocate path mode offset len) = at_path ctx path λ name. set_mode name fmode_file
  call ctx (set_xattr path name content) = lift (ok tt)
  call ctx (remove_xattr path name) = lift (ok tt)
  call ctx (chmod path mode) = lift (ok tt)
  call ctx (chown path uid gid) = lift (ok tt)
  call ctx (utimes path atime mtime ctime) = lift (ok tt)
  call ctx (update_extent path file_offset tmp_size) = lift (ok tt)
  call ctx (fileattr path attr) = lift (ok tt)
  call ctx finish_subvolume = lift (ok tt)
  call ctx _ = lift (err not_supported)

  abbrev pub memfs_receiver : Receiver
  memfs_receiver = record { State = MemFsReceiver; call = call; pre_op = none; post_op = none }
