-- ===== src/Config.antt =====
-- pkg/cmd/config/config.go: the settings of volumes, subvolumes and mirrors, and how they are found
-- by name. Reading them from a file is of other packages.
pub mod Resolve
pub mod Validate
pub mod Valid
pub mod Mirrors
use btrsync.Common.{
  ℕ, Bool, true, false, not, ◌||◌, Option, none, some, List, [], ◌∷◌, ◌++◌, if◌then◌else◌,
}
use btrsync.Common.Bytes.{Bytes, bytes_eq}
use btrsync.Common.Int.{ℤ, pos}
use btrsync.Common.Paths.{Paths, is_empty}

-- `time.Duration`, in nanoseconds.
abbrev pub Duration : Type 0
Duration = ℤ

-- `MirrorFormat` is a text.
abbrev pub MirrorFormat : Type 0
MirrorFormat = Bytes

abbrev pub mirror_format_subvolume : Bytes
mirror_format_subvolume = 115 ∷ 117 ∷ 98 ∷ 118 ∷ 111 ∷ 108 ∷ 117 ∷ 109 ∷ 101 ∷ []

abbrev pub mirror_format_directory : Bytes
mirror_format_directory = 100 ∷ 105 ∷ 114 ∷ 101 ∷ 99 ∷ 116 ∷ 111 ∷ 114 ∷ 121 ∷ []

abbrev pub mirror_format_gzip : Bytes
mirror_format_gzip = 103 ∷ 122 ∷ 105 ∷ 112 ∷ []

abbrev pub mirror_format_lzw : Bytes
mirror_format_lzw = 108 ∷ 122 ∷ 119 ∷ []

abbrev pub mirror_format_zlib : Bytes
mirror_format_zlib = 122 ∷ 108 ∷ 105 ∷ 98 ∷ []

abbrev pub mirror_format_zstd : Bytes
mirror_format_zstd = 122 ∷ 115 ∷ 116 ∷ 100 ∷ []

-- `IsCompressed`
unfoldable pub is_compressed : MirrorFormat → Bool
is_compressed m =
    bytes_eq m mirror_format_gzip
    || bytes_eq m mirror_format_lzw
    || bytes_eq m mirror_format_zlib
    || bytes_eq m mirror_format_zstd

pub record Mirror : Type 0 where
  pub name : Bytes
  pub path : Bytes
  pub format : MirrorFormat
  pub ssh_user : Bytes
  pub ssh_password : Bytes
  pub ssh_key_identity_file : Bytes
  pub ssh_host_key : Bytes
  pub disabled : Bool

pub record Subvolume : Type 0 where
  pub name : Bytes
  pub path : Bytes
  pub snapshots_dir : Bytes
  pub snapshot_name : Bytes
  pub snapshot_interval : Duration
  pub snapshot_minimum_retention : Duration
  pub snapshot_retention : Duration
  pub snapshot_retention_interval : Duration
  pub time_format : Bytes
  pub mirrors : List Bytes
  pub exclude_mirrors : List Bytes
  pub disabled : Bool

pub record Volume : Type 0 where
  pub name : Bytes
  pub path : Bytes
  pub snapshots_dir : Bytes
  pub snapshot_interval : Duration
  pub snapshot_minimum_retention : Duration
  pub snapshot_retention : Duration
  pub snapshot_retention_interval : Duration
  pub time_format : Bytes
  pub subvolumes : List Subvolume
  pub mirrors : List Bytes
  pub disabled : Bool

pub record DaemonConfig : Type 0 where
  pub scan_interval : Duration

pub record Config : Type 0 where
  pub verbosity : ℤ
  pub concurrency : ℤ
  pub snapshots_dir : Bytes
  pub snapshot_interval : Duration
  pub snapshot_minimum_retention : Duration
  pub snapshot_retention : Duration
  pub snapshot_retention_interval : Duration
  pub time_format : Bytes
  pub ssh_user : Bytes
  pub ssh_password : Bytes
  pub ssh_key_identity_file : Bytes
  pub ssh_host_key : Bytes
  pub volumes : List Volume
  pub mirrors : List Mirror
  pub daemon : DaemonConfig

abbrev pub default_snapshots_dir : Bytes
default_snapshots_dir =
    98 ∷ 116 ∷ 114 ∷ 115 ∷ 121 ∷ 110 ∷ 99 ∷ 95 ∷ 115 ∷ 110 ∷ 97 ∷ 112 ∷ 115 ∷ 104 ∷ 111 ∷ 116 ∷ 115
    ∷ []

abbrev pub default_time_format : Bytes
default_time_format =
    50 ∷ 48 ∷ 48 ∷ 54 ∷ 45 ∷ 48 ∷ 49 ∷ 45 ∷ 48 ∷ 50 ∷ 95 ∷ 49 ∷ 53 ∷ 45 ∷ 48 ∷ 52 ∷ 45 ∷ 48 ∷ 53
    ∷ []

abbrev pub default_snapshot_interval : Duration
default_snapshot_interval = pos 3_600_000_000_000

abbrev pub default_snapshot_minimum_retention : Duration
default_snapshot_minimum_retention = pos 86_400_000_000_000

abbrev pub default_snapshot_retention : Duration
default_snapshot_retention = pos 604_800_000_000_000

abbrev pub default_snapshot_retention_interval : Duration
default_snapshot_retention_interval = pos 86_400_000_000_000

abbrev pub default_daemon_scan_interval : Duration
default_daemon_scan_interval = pos 60_000_000_000

-- `NewDefaultConfig`
unfoldable pub new_default_config : Config
new_default_config = record {
  verbosity = pos 0;
  concurrency = pos 0;
  snapshots_dir = default_snapshots_dir;
  snapshot_interval = default_snapshot_interval;
  snapshot_minimum_retention = default_snapshot_minimum_retention;
  snapshot_retention = default_snapshot_retention;
  snapshot_retention_interval = default_snapshot_retention_interval;
  time_format = default_time_format;
  ssh_user = [];
  ssh_password = [];
  ssh_key_identity_file = [];
  ssh_host_key = [];
  volumes = [];
  mirrors = [];
  daemon = record { scan_interval = default_daemon_scan_interval };
}

-- `GetMirror`
unfoldable pub get_mirror_of : List Mirror → Bytes → Option Mirror
get_mirror_of [] name = none
get_mirror_of (m ∷ ms) name = if bytes_eq m.name name then some m else get_mirror_of ms name

unfoldable pub get_mirror : Config → Bytes → Option Mirror
unfolding get_mirror_of
get_mirror c name = get_mirror_of c.mirrors name

module _ (F : Paths) where
  -- `GetName` of a volume and of a subvolume.
  unfoldable pub volume_name : Volume → Bytes
  volume_name v = if is_empty v.name then F.base v.path else v.name

  unfoldable pub subvolume_name : Subvolume → Bytes
  subvolume_name s = if is_empty s.name then F.base s.path else s.name

  -- `GetSnapshotName`: "%s.%s" of the two names, unless one is set.
  unfoldable pub get_snapshot_name : Subvolume → Bytes → Bytes
  unfolding subvolume_name
  get_snapshot_name s volume =
      if is_empty s.snapshot_name then volume ++ 46 ∷ subvolume_name s else s.snapshot_name

  -- `GetVolume` and `GetSubvolume`: the first one of the name.
  unfoldable pub get_volume_of : List Volume → Bytes → Option Volume
  get_volume_of [] name = none
  get_volume_of (v ∷ vs) name =
      if bytes_eq (volume_name v) name then some v else get_volume_of vs name

  unfoldable pub get_volume : Config → Bytes → Option Volume
  unfolding get_volume_of
  get_volume c name = get_volume_of c.volumes name

  unfoldable pub get_subvolume_of : List Subvolume → Bytes → Option Subvolume
  get_subvolume_of [] name = none
  get_subvolume_of (s ∷ ss) name =
      if bytes_eq (subvolume_name s) name then some s else get_subvolume_of ss name

  unfoldable pub get_subvolume : Volume → Bytes → Option Subvolume
  unfolding get_subvolume_of
  get_subvolume v name = get_subvolume_of v.subvolumes name

  -- `VolumeNameInUse` and `SubvolumeNameInUse`
  volume_in : List Volume → Bytes → Bool
  volume_in [] name = false
  volume_in (v ∷ vs) name = bytes_eq (volume_name v) name || volume_in vs name

  unfoldable pub volume_name_in_use : Config → Bytes → Bool
  unfolding volume_in
  volume_name_in_use c name = volume_in c.volumes name

  subvolume_in : List Subvolume → Bytes → Bool
  subvolume_in [] name = false
  subvolume_in (s ∷ ss) name = bytes_eq (subvolume_name s) name || subvolume_in ss name

  unfoldable pub subvolume_name_in_use : Volume → Bytes → Bool
  unfolding subvolume_in
  subvolume_name_in_use v name = subvolume_in v.subvolumes name
