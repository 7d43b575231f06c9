-- ===== src/Tests/Snapshots.antt =====
-- The theorems on snapshots applied at concrete ones.
use btrsync.Common.{ℕ, true, false, List, [], ◌∷◌, All, ◌≡◌, ◌⊎◌, inl, inr, refl, arith}
use btrsync.Common.Bytes.{Bytes}
use btrsync.Common.Outcome.{ok}
use btrsync.Common.Int.{pos, lt_int}
use btrsync.Btrfs.RootInfo.{RootInfo}
use btrsync.Snapmanager.Manager.{FileSystem, ManagerConfig, SnapManager, prune_snapshots, older}
use btrsync.Snapmanager.Snaputil.{map_parents, snapshots_of, parents_of, map_parents-shifted}
use btrsync.Common.{none, some}
use btrsync.Snapmanager.{sub}
use btrsync.Snapmanager.Pruning.{Untouched, prune_snapshots-Untouched}

abbrev snap : Bytes → ℕ → RootInfo
snap name t = record {
  root_id = 0;
  root_offset = 0;
  flags = 0;
  ref_tree = 0;
  dir_id = 0;
  top_id = 0;
  generation = 0;
  original_generation = 0;
  creation_time = t;
  send_time = 0;
  receive_time = 0;
  uuid = [];
  parent_uuid = [];
  received_uuid = [];
  path = [];
  name = name;
  full_path = [];
  deleted = false;
}

abbrev last_part : List Bytes → Bytes
last_part [] = []
last_part (p ∷ []) = p
last_part (p ∷ q ∷ ps) = last_part (q ∷ ps)

-- The world is the list of the deleted paths; it is always 1000.
abbrev deletions : FileSystem
deletions = record {
  World = List Bytes;
  join = last_part;
  format_time = λ t f. f;
  sort_ascending = λ ss. ss;
  now = λ w. (1000, w);
  is_subvolume = λ p w. (ok true, w);
  create_subvolume = λ p w. (ok tt, w);
  create_snapshot = λ p q w. (ok tt, w);
  sync_filesystem = λ p w. (ok tt, w);
  delete_subvolume = λ p w. (ok tt, p ∷ w);
}

abbrev retention : ManagerConfig
retention = record {
  full_subvolume_path = [];
  snapshot_directory = [];
  snapshot_name = [];
  snapshot_interval = pos 10;
  snapshot_minimum_retention = pos 100;
  snapshot_retention = pos 500;
  snapshot_retention_interval = pos 50;
  time_format = [];
}

-- A snapshot "y" that is 50 old, or an older one of another name.
abbrev Known : RootInfo → Type 0
Known s = (s.creation_time ≡ 950) ⊎ (s.name ≡ 111 ∷ [])

abbrev KeepsYoung : List Bytes → Type 0
KeepsYoung deleted = All (λ p. p ≡ 111 ∷ []) deleted

only_old : Untouched deletions retention Known KeepsYoung
unfolding older sub lt_int
only_old = record { by_clock = λ w p. p; by_delete = λ s w old p. (name_of s old.known old.old, p) }
  where
    name_of :
        (s : RootInfo)
        → Known s
        → older deletions retention 1000 s.creation_time (pos 100) ≡ true
        → s.name ≡ 111 ∷ []
    name_of s (inl young) old = ground (arith, young, old)
    name_of s (inr named) old = named

abbrev manager : SnapManager deletions retention
manager = record {
  snapshots =
      snap (111 ∷ []) 10 ∷ snap (111 ∷ []) 600 ∷ snap (111 ∷ []) 610 ∷ snap (121 ∷ []) 950 ∷ [];
  world = [];
}

prune_snapshots-Untouched_example :
    KeepsYoung ((prune_snapshots deletions retention manager).1.world)
unfolding lt_int
prune_snapshots-Untouched_example =
    prune_snapshots-Untouched deletions retention Known KeepsYoung only_old (λ Q xs h. h) manager
      refl (inr refl, (inr refl, (inr refl, (inl refl, tt)))) tt

abbrev three_snaps : List RootInfo
three_snaps = snap (97 ∷ []) 1 ∷ snap (98 ∷ []) 2 ∷ snap (99 ∷ []) 3 ∷ []

map_parents-shifted_example :
    (snapshots_of (map_parents (λ ss. ss) three_snaps) ≡ three_snaps)
    × (parents_of (map_parents (λ ss. ss) three_snaps)
        ≡ none ∷ some (snap (97 ∷ []) 1) ∷ some (snap (98 ∷ []) 2) ∷ [])
map_parents-shifted_example = map_parents-shifted (λ ss. ss) three_snaps
