-- ===== src/Snapmanager/Manager.antt =====
-- `SnapManager` of pkg/cmd/snapmanager/snapmanager.go. Logging is left out.
use btrsync.Common.{
  ℕ, Bool, true, false, Option, none, some, List, [], ◌∷◌, ◌++◌, ltb, if◌then◌else◌,
}
use btrsync.Common.Bytes.{Bytes}
use btrsync.Common.Outcome.{Outcome, ok, err, panic, stuck}
use btrsync.Common.Action.{Action, ◌>>=◌, ◌>>◌, lift}
use btrsync.Common.Int.{ℤ, lt_int, is_zero_int}
use btrsync.Btrfs.RootInfo.{RootInfo}
use btrsync.Snapmanager.{sub, to_timed_chunks}

pub data Error : Type 0 where
  not_exist not_subvolume failed : Error

-- `os.IsNotExist`
unfoldable pub is_not_exist : Error → Bool
is_not_exist not_exist = true
is_not_exist _ = false

-- What is used of `time`, `filepath` and `sort`, and the ioctls of pkg/btrfs. `now` is `time.Now`, and
-- `create_snapshot` makes a read-only one.
pub record FileSystem : Type 1 where
  pub World : Type 0
  pub join : List Bytes → Bytes
  pub format_time : ℕ → Bytes → Bytes
  pub sort_ascending : List RootInfo → List RootInfo
  pub now : World → ℕ × World
  pub is_subvolume : Bytes → World → Outcome Error Bool × World
  pub create_subvolume : Bytes → World → Outcome Error (Unit {0}) × World
  pub create_snapshot : Bytes → Bytes → World → Outcome Error (Unit {0}) × World
  pub sync_filesystem : Bytes → World → Outcome Error (Unit {0}) × World
  pub delete_subvolume : Bytes → World → Outcome Error (Unit {0}) × World

-- `Config`, without the logger and its verbosity.
pub record ManagerConfig : Type 0 where
  pub full_subvolume_path : Bytes
  pub snapshot_directory : Bytes
  pub snapshot_name : Bytes
  pub snapshot_interval : ℤ
  pub snapshot_minimum_retention : ℤ
  pub snapshot_retention : ℤ
  pub snapshot_retention_interval : ℤ
  pub time_format : Bytes

-- `GetMostRecentSnapshot`, with the latest of those before.
unfoldable pub most_recent_of : Option RootInfo → List RootInfo → Option RootInfo
most_recent_of latest [] = latest
most_recent_of none (s ∷ ss) = most_recent_of (some s) ss
most_recent_of (some l) (s ∷ ss) =
    most_recent_of (if ltb l.creation_time s.creation_time then some s else some l) ss

module _ (F : FileSystem) (cfg : ManagerConfig) where
  -- The snapshots of the root info, and the world.
  pub record SnapManager : Type 0 where
    pub snapshots : List RootInfo
    pub world : F.World

  abbrev pub M : Type 0 → Type 0
  M = Action Error SnapManager

  unfoldable pub on_world : {A : Type 0} → Action Error F.World A → M A
  on_world f m = let (r, w) = f m.world in (r, record m { world = w })

  unfoldable pub clock : M ℕ
  clock m = let (t, w) = F.now m.world in (ok t, record m { world = w })

  -- `time.Since(t) > d` and `time.Since(t) < d`; a time ahead of the clock gives a negative duration.
  unfoldable pub older : ℕ → ℕ → ℤ → Bool
  unfolding sub lt_int
  older now t d = lt_int d (sub now t)

  unfoldable pub younger : ℕ → ℕ → ℤ → Bool
  unfolding sub lt_int
  younger now t d = lt_int (sub now t) d

  unfoldable pub get_most_recent_snapshot : M (Option RootInfo)
  unfolding most_recent_of
  get_most_recent_snapshot m = (ok (most_recent_of none m.snapshots), m)

  unfoldable pub ensure_subvol : Outcome Error Bool × F.World → Outcome Error (Unit {0}) × F.World
  ensure_subvol (ok is, w) = (if is then ok tt else err not_subvolume, w)
  ensure_subvol (err e, w) =
      if is_not_exist e then F.create_subvolume cfg.snapshot_directory w else (err e, w)
  ensure_subvol (panic, w) = (panic, w)
  ensure_subvol (stuck, w) = (stuck, w)

  unfoldable pub ensure_snapshot_subvol : M (Unit {0})
  unfolding on_world ensure_subvol
  ensure_snapshot_subvol = on_world (λ w. ensure_subvol (F.is_subvolume cfg.snapshot_directory w))

  unfoldable pub new_snapshot : M (Unit {0})
  unfolding clock on_world
  new_snapshot = do
    t ← clock
    let path =
        F.join (
          cfg.snapshot_directory ∷ (cfg.snapshot_name ++ 46 ∷ F.format_time t cfg.time_format) ∷ [])
    on_world (F.create_snapshot cfg.full_subvolume_path path)
    on_world (F.sync_filesystem path)

  unfoldable pub new_if_old : Option RootInfo → M (Unit {0})
  unfolding clock younger new_snapshot
  new_if_old none = new_snapshot
  new_if_old (some s) = do
    t ← clock
    (if younger t s.creation_time cfg.snapshot_interval then lift (ok tt) else new_snapshot)

  -- `EnsureMostRecentSnapshot`
  unfoldable pub ensure_most_recent_snapshot : M (Unit {0})
  unfolding ensure_snapshot_subvol get_most_recent_snapshot new_if_old
  ensure_most_recent_snapshot = do
    ensure_snapshot_subvol
    latest ← get_most_recent_snapshot
    new_if_old latest

  unfoldable pub delete_snapshot : RootInfo → M (Unit {0})
  unfolding on_world
  delete_snapshot s = on_world (F.delete_subvolume (F.join (cfg.snapshot_directory ∷ s.name ∷ [])))

  -- The first loop of `PruneSnapshots`, with the snapshots that remain.
  unfoldable pub prune_old : List RootInfo → List RootInfo → M (List RootInfo)
  unfolding clock older delete_snapshot
  prune_old remaining [] = lift (ok remaining)
  prune_old remaining (s ∷ ss) = do
    t ← clock
    (if older t s.creation_time cfg.snapshot_retention
        then delete_snapshot s >> prune_old remaining ss
        else prune_old (remaining ++ s ∷ []) ss)

  -- The inner test of the second loop, which reads the clock again.
  unfoldable pub is_past_minimum : RootInfo → M Bool
  unfolding clock older
  is_past_minimum s = do
    t ← clock
    lift (ok (older t s.creation_time cfg.snapshot_minimum_retention))

  unfoldable pub is_long_term : RootInfo → M Bool
  unfolding clock younger is_past_minimum
  is_long_term s = do
    t ← clock
    (if younger t s.creation_time cfg.snapshot_retention
        then is_past_minimum s
        else lift (ok false))

  -- The second loop: the snapshots between the two retention periods.
  unfoldable pub long_term : List RootInfo → List RootInfo → M (List RootInfo)
  unfolding is_long_term
  long_term kept [] = lift (ok kept)
  long_term kept (s ∷ ss) = do
    is ← is_long_term s
    long_term (if is then kept ++ s ∷ [] else kept) ss

  unfoldable pub delete_all : List RootInfo → M (Unit {0})
  unfolding delete_snapshot
  delete_all [] = lift (ok tt)
  delete_all (s ∷ ss) = delete_snapshot s >> delete_all ss

  -- All of a chunk but the first is deleted.
  unfoldable pub prune_chunks : List (List RootInfo) → M (Unit {0})
  unfolding delete_all
  prune_chunks [] = lift (ok tt)
  prune_chunks ([] ∷ chunks) = prune_chunks chunks
  prune_chunks ((s ∷ ss) ∷ chunks) = delete_all ss >> prune_chunks chunks

  unfoldable pub set_snapshots : List RootInfo → M (Unit {0})
  set_snapshots ss m = (ok tt, record m { snapshots = ss })

  -- Behind the first loop.
  unfoldable pub prune_within : List RootInfo → M (Unit {0})
  unfolding long_term prune_chunks to_timed_chunks
  prune_within remaining = if is_zero_int cfg.snapshot_retention_interval then lift (ok tt) else (do
    snapshots ← long_term [] remaining
    prune_chunks (to_timed_chunks F.sort_ascending snapshots cfg.snapshot_retention_interval))

  -- `PruneSnapshots`
  unfoldable pub prune_snapshots : M (Unit {0})
  unfolding prune_old set_snapshots prune_within
  prune_snapshots m =
      (if is_zero_int cfg.snapshot_retention then lift (ok tt) else (do
        remaining ← prune_old [] m.snapshots
        set_snapshots remaining
        prune_within remaining))
        m
