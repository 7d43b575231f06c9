-- ===== src/Config/Validate.antt =====
-- `Validate` of pkg/cmd/config/config.go. The text of an error is its constructor.
use btrsync.Common.{Bool, true, false, not, Option, none, some, List, [], ◌∷◌, ◌++◌}
use mathlib.Core.Option.{or_else}
use btrsync.Common.Bytes.{Bytes}
use btrsync.Common.Int.{lt_int}
use btrsync.Common.Paths.{Paths, is_empty, contains_byte, contains_text}
use btrsync.Config.{Subvolume, Volume, Config, volume_name, subvolume_name}
use btrsync.Config.Resolve.{
  resolve_snapshot_path, resolve_snapshot_interval, resolve_snapshot_minimum_retention,
  resolve_snapshot_retention, resolve_snapshot_retention_interval,
}

pub data Error : Type 0 where
  duplicate_volume_name : Bytes → Error
  duplicate_subvolume_name : Bytes → Bytes → Error
  volume_name_required volume_name_colon volume_path_required : Error
  subvolume_name_required subvolume_name_colon subvolume_path_required : Error
  snapshot_directory_required interval_not_below_retention retention_not_above_minimum : Error
  retention_interval_not_below_retention : Error

-- `isUnique`
unfoldable pub is_unique : List Bytes → Bytes → Bool
is_unique ss s = not (contains_text ss s)

-- `if bad { return e }`, followed by the rest.
abbrev pub refuse : Bool → Error → Option Error → Option Error
refuse true e rest = some e
refuse false e rest = rest

module _ (F : Paths) where
  unfoldable pub validate_volume : Volume → Option Error
  validate_volume v = refuse (is_empty (volume_name F v)) volume_name_required (
      refuse (contains_byte (volume_name F v) 58) volume_name_colon
        (refuse (is_empty v.path) volume_path_required none))

  unfoldable pub validate_subvolume : Config → Volume → Subvolume → Option Error
  validate_subvolume c vol subvol =
      let vol_name = volume_name F vol in
      let subvol_name = subvolume_name F subvol in
      let snapshot_dir = resolve_snapshot_path F c vol_name subvol_name in
      let interval = resolve_snapshot_interval F c vol_name subvol_name in
      let min_retention = resolve_snapshot_minimum_retention F c vol_name subvol_name in
      let retention = resolve_snapshot_retention F c vol_name subvol_name in
      let retention_interval = resolve_snapshot_retention_interval F c vol_name subvol_name in
      refuse (is_empty subvol_name) subvolume_name_required (
        refuse (contains_byte subvol_name 58) subvolume_name_colon (
          refuse (is_empty subvol.path) subvolume_path_required (
            refuse (is_empty snapshot_dir) snapshot_directory_required (
              refuse (not (lt_int interval min_retention)) interval_not_below_retention (
                refuse (not (lt_int min_retention retention)) retention_not_above_minimum (
                  refuse (not (lt_int retention_interval retention))
                    retention_interval_not_below_retention none))))))

  -- The inner loop, with the names of the subvolumes before.
  unfoldable pub validate_subvolumes : Config → Volume → List Bytes → List Subvolume → Option Error
  validate_subvolumes c v names [] = none
  validate_subvolumes c v names (s ∷ ss) =
      refuse (not (is_unique names (subvolume_name F s)))
        (duplicate_subvolume_name (volume_name F v) (subvolume_name F s))
        (or_else (validate_subvolume c v s)
          (validate_subvolumes c v (names ++ subvolume_name F s ∷ []) ss))

  unfoldable pub validate_volumes : Config → List Bytes → List Volume → Option Error
  unfolding validate_subvolumes
  validate_volumes c names [] = none
  validate_volumes c names (v ∷ vs) =
      refuse (not (is_unique names (volume_name F v))) (duplicate_volume_name (volume_name F v)) (
        or_else (validate_volume v) (
          or_else (validate_subvolumes c v [] v.subvolumes)
            (validate_volumes c (names ++ volume_name F v ∷ []) vs)))

  unfoldable pub validate : Config → Option Error
  unfolding validate_volumes
  validate c = validate_volumes c [] c.volumes
