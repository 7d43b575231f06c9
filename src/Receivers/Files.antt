-- ===== src/Receivers/Files.antt =====
-- What pkg/receive/receivers/directory/directory.go and pkg/receive/receivers/local/local.go do in
-- the same words: operations on a file under its resolved path.
use btrsync.Common.{ℕ}
use btrsync.Common.Bytes.{Bytes}
use btrsync.Common.Int.{int64}
use btrsync.Common.Action.{Action, ◌>>=◌}
use btrsync.Receive.Receiver.{Error}
use btrsync.Receivers.Os.{
  Os, OpenMode, write_only, read_write, truncating, sys_close, sys_bind, sys_write_at,
  sys_fallocate,
}

module _ (O : Os) where
  -- An action on the world.
  abbrev pub W : Type 0 → Type 0
  W = Action Error O.World

  -- The body of a function with `defer f.Close()`; an error of that call is dropped.
  unfoldable pub then_close : {A : Type 0} → ℕ → W A → W A
  then_close fd body w = let (r, w') = body w in (r, (O.run (sys_close fd) w').1)

  unfoldable pub with_file : {A : Type 0} → Bytes → OpenMode → ℕ → (ℕ → W A) → W A
  unfolding then_close
  with_file path mode perm body = do fd ← O.open_file path mode perm; then_close fd (body fd)

  -- `os.Create`, then `f.Close()`, whose error counts.
  unfoldable pub create_file : Bytes → W (Unit {0})
  create_file path = do fd ← O.open_file path truncating 0o666; O.run (sys_close fd)

  unfoldable pub create_socket : Bytes → W (Unit {0})
  unfolding then_close
  create_socket path = do sock ← O.socket; then_close sock (O.run (sys_bind sock path))

  unfoldable pub write_file : Bytes → ℕ → Bytes → W (Unit {0})
  unfolding with_file
  write_file path offset content =
      with_file path write_only 0o600 λ fd. O.run (sys_write_at fd content (int64 offset))

  unfoldable pub fallocate_file : Bytes → ℕ → ℕ → ℕ → W (Unit {0})
  unfolding with_file
  fallocate_file path mode offset len =
      with_file path write_only 0o600 λ fd. O.run (sys_fallocate fd mode (int64 offset) (int64 len))

  -- `Fileattr` opens the file and closes it.
  unfoldable pub touch_file : Bytes → W (Unit {0})
  touch_file path = do fd ← O.open_file path read_write 0o600; O.run (sys_close fd)
