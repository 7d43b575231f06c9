-- ===== src/Tests/Settings.antt =====
-- The theorems on the settings applied at a concrete configuration.
use btrsync.Common.{◌≡◌, refl, false, none, some, List, [], ◌∷◌, ◌++◌, All}
use btrsync.Common.Bytes.{Bytes, bytes_eq}
use btrsync.Common.Int.{pos, lt_int, is_zero_int}
use btrsync.Common.Paths.{Paths, is_empty, contains_byte, contains_text}
use btrsync.Config.{
  Mirror, Subvolume, Volume, Config, new_default_config, get_volume, get_subvolume, volume_name,
  subvolume_name,
}
use btrsync.Config.Resolve.{
  resolve_mirrors, resolve_snapshot_path, resolve_snapshot_interval,
  resolve_snapshot_minimum_retention, resolve_snapshot_retention,
  resolve_snapshot_retention_interval,
}
use btrsync.Config.Validate.{
  validate, validate_volumes, validate_volume, validate_subvolumes, validate_subvolume, is_unique,
}
use btrsync.Config.Valid.{ValidVolume, validate-Valid}
use btrsync.Config.Mirrors.{Wanted, resolve_mirrors-Wanted}
use mathlib.Core.Option.{or_else}

abbrev first_part : List Bytes → Bytes
first_part [] = []
first_part (p ∷ ps) = p

-- Paths of one part.
abbrev flat_paths : Paths
flat_paths = record { join = first_part; base = λ p. p; dir = λ p. p }

abbrev usb : Mirror
usb = record {
  name = 117 ∷ [];
  path = 47 ∷ [];
  format = [];
  ssh_user = [];
  ssh_password = [];
  ssh_key_identity_file = [];
  ssh_host_key = [];
  disabled = false;
}

-- A subvolume "@" without settings of its own, whose name is that of its path.
abbrev root_subvolume : Subvolume
root_subvolume = record {
  name = [];
  path = 64 ∷ [];
  snapshots_dir = [];
  snapshot_name = [];
  snapshot_interval = pos 0;
  snapshot_minimum_retention = pos 0;
  snapshot_retention = pos 0;
  snapshot_retention_interval = pos 0;
  time_format = [];
  mirrors = (120 ∷ []) ∷ [];
  exclude_mirrors = [];
  disabled = false;
}

abbrev data_volume : Volume
data_volume = record {
  name = 100 ∷ [];
  path = 47 ∷ [];
  snapshots_dir = [];
  snapshot_interval = pos 60;
  snapshot_minimum_retention = pos 0;
  snapshot_retention = pos 0;
  snapshot_retention_interval = pos 0;
  time_format = [];
  subvolumes = root_subvolume ∷ [];
  mirrors = (117 ∷ []) ∷ [];
  disabled = false;
}

abbrev config : Config
config = record new_default_config { volumes = data_volume ∷ []; mirrors = usb ∷ [] }

valid_config : validate flat_paths config ≡ none
unfolding validate validate_volumes validate_volume validate_subvolumes validate_subvolume is_unique
    new_default_config contains_text or_else is_empty volume_name contains_byte subvolume_name
    resolve_snapshot_path get_volume bytes_eq get_subvolume lt_int resolve_snapshot_interval
    is_zero_int resolve_snapshot_minimum_retention resolve_snapshot_retention
    resolve_snapshot_retention_interval
valid_config = refl

validate-Valid_example : All (ValidVolume flat_paths config) config.volumes
validate-Valid_example = validate-Valid flat_paths config valid_config

resolve_mirrors-Wanted_example :
    All
      (Wanted config root_subvolume (data_volume.mirrors ++ root_subvolume.mirrors))
      (resolve_mirrors flat_paths config (100 ∷ []) (64 ∷ []))
resolve_mirrors-Wanted_example =
    resolve_mirrors-Wanted config flat_paths data_volume root_subvolume (100 ∷ []) (64 ∷ [])
      found_volume found_subvolume
  where
    found_volume : get_volume flat_paths config (100 ∷ []) ≡ some data_volume
    found_volume = unfold get_volume new_default_config bytes_eq volume_name is_empty in refl

    found_subvolume : get_subvolume flat_paths data_volume (64 ∷ []) ≡ some root_subvolume
    found_subvolume = unfold get_subvolume bytes_eq subvolume_name is_empty in refl
