-- ===== src/Config/Resolve.antt =====
-- The `Resolve…` methods of pkg/cmd/config/config.go: a setting of the subvolume comes before one of
-- the volume, that before a global one, and that before the default.
use btrsync.Common.{Bool, none, some, List, [], ◌∷◌, ◌++◌, not, if◌then◌else◌}
use btrsync.Common.Bytes.{Bytes}
use btrsync.Common.Int.{pos, is_zero_int}
use btrsync.Common.Paths.{Paths, is_empty, has_prefix, contains_text}
use btrsync.Config.{
  Duration, Mirror, Subvolume, Volume, Config, get_mirror, get_volume, get_subvolume,
  default_snapshots_dir, default_time_format, default_snapshot_interval,
  default_snapshot_minimum_retention, default_snapshot_retention,
  default_snapshot_retention_interval,
}

-- "ssh://"
abbrev pub ssh_scheme : Bytes
ssh_scheme = 115 ∷ 115 ∷ 104 ∷ 58 ∷ 47 ∷ 47 ∷ []

-- `IsMirrorExcluded` and `FilterExcludedMirrors`
unfoldable pub is_mirror_excluded : Subvolume → Bytes → Bool
is_mirror_excluded s name = contains_text s.exclude_mirrors name

unfoldable pub filter_excluded_mirrors : Subvolume → List Mirror → List Mirror
unfolding is_mirror_excluded
filter_excluded_mirrors s [] = []
filter_excluded_mirrors s (m ∷ ms) =
    let rest = filter_excluded_mirrors s ms in
    if is_mirror_excluded s m.name then rest else m ∷ rest

-- The loop over the names; a name without a mirror is passed over.
unfoldable pub named_mirrors : Config → List Bytes → List Mirror
named_mirrors c [] = []
named_mirrors c (name ∷ names) = elim (get_mirror c name) [
  | none ↦ named_mirrors c names
  | some m ↦ m ∷ named_mirrors c names
]

unfoldable pub resolve_mirror_ssh_user : Config → Bytes → Bytes
resolve_mirror_ssh_user c name = elim (get_mirror c name) [
  | none ↦ []
  | some mirror ↦
      if not (has_prefix mirror.path ssh_scheme)
      then []
      else if not (is_empty mirror.ssh_user)
      then mirror.ssh_user
      else if not (is_empty c.ssh_user)
      then c.ssh_user
      else []
]

unfoldable pub resolve_mirror_ssh_password : Config → Bytes → Bytes
resolve_mirror_ssh_password c name = elim (get_mirror c name) [
  | none ↦ []
  | some mirror ↦
      if not (has_prefix mirror.path ssh_scheme)
      then []
      else if not (is_empty mirror.ssh_password)
      then mirror.ssh_password
      else if not (is_empty c.ssh_password)
      then c.ssh_password
      else []
]

unfoldable pub resolve_mirror_ssh_key_file : Config → Bytes → Bytes
resolve_mirror_ssh_key_file c name = elim (get_mirror c name) [
  | none ↦ []
  | some mirror ↦
      if not (has_prefix mirror.path ssh_scheme)
      then []
      else if not (is_empty mirror.ssh_key_identity_file)
      then mirror.ssh_key_identity_file
      else if not (is_empty c.ssh_key_identity_file)
      then c.ssh_key_identity_file
      else []
]

unfoldable pub resolve_mirror_ssh_host_key : Config → Bytes → Bytes
resolve_mirror_ssh_host_key c name = elim (get_mirror c name) [
  | none ↦ []
  | some mirror ↦
      if not (has_prefix mirror.path ssh_scheme)
      then []
      else if not (is_empty mirror.ssh_host_key)
      then mirror.ssh_host_key
      else if not (is_empty c.ssh_host_key)
      then c.ssh_host_key
      else []
]

module _ (F : Paths) where
  -- The volume and the subvolume, or the value that is returned without them.
  abbrev pub with_subvolume {ℓ} :
      {A : Type ℓ} → Config → Bytes → Bytes → A → (Volume → Subvolume → A) → A
  with_subvolume c vol subvol missing f = elim (get_volume F c vol) [
    | none ↦ missing
    | some v ↦ elim (get_subvolume F v subvol) [ none ↦ missing | some s ↦ f v s ]
  ]

  unfoldable pub resolve_time_format : Config → Bytes → Bytes → Bytes
  resolve_time_format c vol subvol = with_subvolume c vol subvol [] λ v s.
      if not (is_empty s.time_format)
      then s.time_format
      else if not (is_empty v.time_format)
      then v.time_format
      else if not (is_empty c.time_format)
      then c.time_format
      else default_time_format

  unfoldable pub resolve_snapshot_path : Config → Bytes → Bytes → Bytes
  resolve_snapshot_path c vol subvol = with_subvolume c vol subvol [] λ v s.
      if not (is_empty s.snapshots_dir)
      then F.join (v.path ∷ s.path ∷ s.snapshots_dir ∷ [])
      else if not (is_empty v.snapshots_dir)
      then F.join (v.path ∷ v.snapshots_dir ∷ [])
      else if not (is_empty c.snapshots_dir)
      then F.join (v.path ∷ c.snapshots_dir ∷ [])
      else F.join (v.path ∷ default_snapshots_dir ∷ [])

  unfoldable pub resolve_snapshot_interval : Config → Bytes → Bytes → Duration
  resolve_snapshot_interval c vol subvol = with_subvolume c vol subvol (pos 0) λ v s.
      if not (is_zero_int s.snapshot_interval)
      then s.snapshot_interval
      else if not (is_zero_int v.snapshot_interval)
      then v.snapshot_interval
      else if not (is_zero_int c.snapshot_interval)
      then c.snapshot_interval
      else default_snapshot_interval

  unfoldable pub resolve_snapshot_minimum_retention : Config → Bytes → Bytes → Duration
  resolve_snapshot_minimum_retention c vol subvol = with_subvolume c vol subvol (pos 0) λ v s.
      if not (is_zero_int s.snapshot_minimum_retention)
      then s.snapshot_minimum_retention
      else if not (is_zero_int v.snapshot_minimum_retention)
      then v.snapshot_minimum_retention
      else if not (is_zero_int c.snapshot_minimum_retention)
      then c.snapshot_minimum_retention
      else default_snapshot_minimum_retention

  unfoldable pub resolve_snapshot_retention : Config → Bytes → Bytes → Duration
  resolve_snapshot_retention c vol subvol = with_subvolume c vol subvol (pos 0) λ v s.
      if not (is_zero_int s.snapshot_retention)
      then s.snapshot_retention
      else if not (is_zero_int v.snapshot_retention)
      then v.snapshot_retention
      else if not (is_zero_int c.snapshot_retention)
      then c.snapshot_retention
      else default_snapshot_retention

  unfoldable pub resolve_snapshot_retention_interval : Config → Bytes → Bytes → Duration
  resolve_snapshot_retention_interval c vol subvol = with_subvolume c vol subvol (pos 0) λ v s.
      if not (is_zero_int s.snapshot_retention_interval)
      then s.snapshot_retention_interval
      else if not (is_zero_int v.snapshot_retention_interval)
      then v.snapshot_retention_interval
      else if not (is_zero_int c.snapshot_retention_interval)
      then c.snapshot_retention_interval
      else default_snapshot_retention_interval

  unfoldable pub resolve_mirrors : Config → Bytes → Bytes → List Mirror
  unfolding named_mirrors filter_excluded_mirrors
  resolve_mirrors c vol subvol =
      with_subvolume c vol subvol []
        λ v s. filter_excluded_mirrors s (named_mirrors c (v.mirrors ++ s.mirrors))
