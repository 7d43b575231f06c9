-- ===== src/Config/Valid.antt =====
-- What `Validate` of pkg/cmd/config/config.go makes sure of.
use btrsync.Common.{
  Bool, true, false, not, Option, none, some, List, [], ◌∷◌, ◌++◌, ◌≡◌, ◌≢◌, refl, All, All-map,
  arith,
}
use mathlib.Core.Option.{or_else}
use btrsync.Common.Bytes.{Bytes, bytes_eq, bytes_eq_iff}
use btrsync.Common.Int.{lt_int}
use btrsync.Common.Paths.{Paths, is_empty, contains_byte, contains_text}
use btrsync.Config.{
  Subvolume, Volume, Config, volume_name, subvolume_name, get_volume, get_volume_of, get_subvolume,
  get_subvolume_of,
}
use btrsync.Config.Resolve.{
  resolve_snapshot_path, resolve_snapshot_interval, resolve_snapshot_minimum_retention,
  resolve_snapshot_retention, resolve_snapshot_retention_interval,
}
use btrsync.Config.Validate.{
  Error, is_unique, refuse, validate_volume, validate_subvolume, validate_subvolumes,
  validate_volumes, validate,
}

refuse-none :
    (b : Bool) (e : Error) (rest : Option Error)
    → refuse b e rest ≡ none
    → (b ≡ false) × (rest ≡ none)
refuse-none true e rest h = cc
refuse-none false e rest h = (refl, h)

or_else-none : (o rest : Option Error) → or_else o rest ≡ none → (o ≡ none) × (rest ≡ none)
unfolding or_else
or_else-none none rest h = (refl, h)
or_else-none (some e) rest h = cc

not-false : (b : Bool) → not b ≡ false → b ≡ true
not-false true h = refl
not-false false h = cc

is_empty-ne : (s : Bytes) → is_empty s ≡ false → s ≢ []
unfolding is_empty
is_empty-ne [] h = cc
is_empty-ne (b ∷ s) h = λ e. cc

bytes_eq_refl : (s : Bytes) → bytes_eq s s ≡ true
bytes_eq_refl s = (bytes_eq_iff s s).1 refl

-- A name that is not among more names is not among fewer, and is not the one that was added.
contains_text-snoc :
    (names : List Bytes) (n name : Bytes)
    → contains_text (names ++ n ∷ []) name ≡ false
    → (contains_text names name ≡ false) × (bytes_eq n name ≡ false)
unfolding contains_text
contains_text-snoc [] n name h = ground arith
contains_text-snoc (m ∷ names) n name h = ground (arith, contains_text-snoc names n name)

module _ (F : Paths) (c : Config) where
  FreshSubvolume : Volume → List Bytes → List Subvolume → Subvolume → Type 0
  FreshSubvolume v names ss s =
      (contains_text names (subvolume_name F s) ≡ false)
      × (validate_subvolume F c v s ≡ none)
      × (get_subvolume_of F ss (subvolume_name F s) ≡ some s)

  FreshSubvolume-cons :
      (v : Volume) (names : List Bytes) (s : Subvolume) (ss : List Subvolume) (t : Subvolume)
      → FreshSubvolume v (names ++ subvolume_name F s ∷ []) ss t
      → FreshSubvolume v names (s ∷ ss) t
  unfolding FreshSubvolume get_subvolume_of
  FreshSubvolume-cons v names s ss t (fresh, valid, found) =
      let (before, other) =
        contains_text-snoc names (subvolume_name F s) (subvolume_name F t) fresh in
      (before, valid, ground (arith, other, found))

  validate_subvolumes-Fresh :
      (v : Volume) (names : List Bytes) (ss : List Subvolume)
      → validate_subvolumes F c v names ss ≡ none
      → All (FreshSubvolume v names ss) ss
  unfolding validate_subvolumes FreshSubvolume get_subvolume_of is_unique
  validate_subvolumes-Fresh v names [] h = tt
  validate_subvolumes-Fresh v names (s ∷ ss) h =
      let (unique, g) = refuse-none (not (is_unique names (subvolume_name F s))) _ _ h in
      let (valid, rest) = or_else-none (validate_subvolume F c v s) _ g in
      (
        (ground (arith, unique), valid, ground (arith, bytes_eq_refl (subvolume_name F s))),
        All-map (FreshSubvolume v (names ++ subvolume_name F s ∷ []) ss)
            (FreshSubvolume v names (s ∷ ss)) (FreshSubvolume-cons v names s ss) ss
            (validate_subvolumes-Fresh v (names ++ subvolume_name F s ∷ []) ss rest),
      )

  FreshVolume : List Bytes → List Volume → Volume → Type 0
  FreshVolume names vs v =
      (contains_text names (volume_name F v) ≡ false)
      × (validate_volume F v ≡ none)
      × (validate_subvolumes F c v [] v.subvolumes ≡ none)
      × (get_volume_of F vs (volume_name F v) ≡ some v)

  FreshVolume-cons :
      (names : List Bytes) (v : Volume) (vs : List Volume) (w : Volume)
      → FreshVolume (names ++ volume_name F v ∷ []) vs w
      → FreshVolume names (v ∷ vs) w
  unfolding FreshVolume get_volume_of
  FreshVolume-cons names v vs w (fresh, valid, subvolumes, found) =
      let (before, other) = contains_text-snoc names (volume_name F v) (volume_name F w) fresh in
      (before, valid, subvolumes, ground (arith, other, found))

  validate_volumes-Fresh :
      (names : List Bytes) (vs : List Volume)
      → validate_volumes F c names vs ≡ none
      → All (FreshVolume names vs) vs
  unfolding validate_volumes FreshVolume get_volume_of is_unique
  validate_volumes-Fresh names [] h = tt
  validate_volumes-Fresh names (v ∷ vs) h =
      let (unique, g) = refuse-none (not (is_unique names (volume_name F v))) _ _ h in
      let (valid, g') = or_else-none (validate_volume F v) _ g in
      let (subvolumes, rest) = or_else-none (validate_subvolumes F c v [] v.subvolumes) _ g' in
      (
        (
          ground (arith, unique),
          valid,
          subvolumes,
          ground (arith, bytes_eq_refl (volume_name F v)),
        ),
        All-map (FreshVolume (names ++ volume_name F v ∷ []) vs) (FreshVolume names (v ∷ vs))
            (FreshVolume-cons names v vs) vs
            (validate_volumes-Fresh (names ++ volume_name F v ∷ []) vs rest),
      )

  -- The conditions on a subvolume, with its settings as they are resolved by its name.
  unfoldable pub ValidSubvolume : Volume → Subvolume → Type 0
  ValidSubvolume v s =
      let vol = volume_name F v in
      let subvol = subvolume_name F s in
      (subvol ≢ [])
      × (contains_byte subvol 58 ≡ false)
      × (s.path ≢ [])
      × (resolve_snapshot_path F c vol subvol ≢ [])
      × (lt_int (resolve_snapshot_interval F c vol subvol)
            (resolve_snapshot_minimum_retention F c vol subvol)
          ≡ true)
      × (lt_int (resolve_snapshot_minimum_retention F c vol subvol)
            (resolve_snapshot_retention F c vol subvol)
          ≡ true)
      × (lt_int (resolve_snapshot_retention_interval F c vol subvol)
            (resolve_snapshot_retention F c vol subvol)
          ≡ true)
      × (get_subvolume F v subvol ≡ some s)

  unfoldable pub ValidVolume : Volume → Type 0
  unfolding ValidSubvolume
  ValidVolume v =
      (volume_name F v ≢ [])
      × (contains_byte (volume_name F v) 58 ≡ false)
      × (v.path ≢ [])
      × (get_volume F c (volume_name F v) ≡ some v)
      × All (ValidSubvolume v) v.subvolumes

  FreshSubvolume-Valid :
      (v : Volume) (s : Subvolume) → FreshSubvolume v [] v.subvolumes s → ValidSubvolume v s
  unfolding FreshSubvolume ValidSubvolume get_subvolume validate_subvolume
  FreshSubvolume-Valid v s (fresh, valid, found) =
      let (a, h1) = refuse-none (is_empty (subvolume_name F s)) _ _ valid in
      let (b, h2) = refuse-none (contains_byte (subvolume_name F s) 58) _ _ h1 in
      let (c', h3) = refuse-none (is_empty s.path) _ _ h2 in
      let (d, h4) =
        refuse-none (is_empty (resolve_snapshot_path F c (volume_name F v) (subvolume_name F s))) _
          _ h3 in
      let (e, h5) = refuse-none _ _ _ h4 in
      let (f, h6) = refuse-none _ _ _ h5 in
      let (g, h7) = refuse-none _ _ _ h6 in
      (
        is_empty-ne _ a,
        b,
        is_empty-ne s.path c',
        is_empty-ne _ d,
        not-false _ e,
        not-false _ f,
        not-false _ g,
        found,
      )

  FreshVolume-Valid : (v : Volume) → FreshVolume [] c.volumes v → ValidVolume v
  unfolding FreshVolume ValidVolume get_volume validate_volume
  FreshVolume-Valid v (fresh, valid, subvolumes, found) =
      let (a, h1) = refuse-none (is_empty (volume_name F v)) _ _ valid in
      let (b, h2) = refuse-none (contains_byte (volume_name F v) 58) _ _ h1 in
      let (c', h3) = refuse-none (is_empty v.path) _ _ h2 in
      (
        is_empty-ne _ a,
        b,
        is_empty-ne v.path c',
        found,
        All-map (FreshSubvolume v [] v.subvolumes) (ValidSubvolume v) (FreshSubvolume-Valid v)
            v.subvolumes (validate_subvolumes-Fresh v [] v.subvolumes subvolumes),
      )

  -- If Validate finds no error, then each volume has a name without a colon and a path, and is the
  -- one that GetVolume finds by its name; and the same holds of each of its subvolumes, whose
  -- resolved snapshot directory is not empty, and whose resolved interval is below the minimum
  -- retention, and that and the retention interval below the retention.
  pub validate-Valid : validate F c ≡ none → All ValidVolume c.volumes
  unfolding validate
  validate-Valid h =
      All-map (FreshVolume [] c.volumes) ValidVolume FreshVolume-Valid c.volumes
        (validate_volumes-Fresh [] c.volumes h)
