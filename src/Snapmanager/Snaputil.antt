-- ===== src/Snapmanager/Snaputil.antt =====
-- pkg/cmd/snaputil/snaputil.go: lists of snapshots.
use btrsync.Common.{
  ℕ, zero, suc, ◌-◌, Bool, false, not, ◌||◌, Option, none, some, List, [], ◌∷◌, ◌++◌, length,
  length-append, get_elem?, get_elem?-append, append_assoc, ==_ne, ◌==◌, ◌≡◌, refl, ap, sym, ◌∙◌,
  if◌then◌else◌, arith,
}
use mathlib.Core.Path.{Path}
use btrsync.Common.Bytes.{Bytes, bytes_eq}
use btrsync.Common.Outcome.{Outcome, ok, err, panic, stuck}
use btrsync.Common.Action.{Action, ◌>>=◌, lift}
use btrsync.Common.Paths.{has_prefix}
use btrsync.Btrfs.RootInfo.{RootInfo}

-- `strings.HasSuffix`
unfoldable pub has_suffix : Bytes → Bytes → Bool
has_suffix [] suffix = bytes_eq [] suffix
has_suffix (b ∷ s) suffix = bytes_eq (b ∷ s) suffix || has_suffix s suffix

-- The loop of `ResolveSubvolumeDetails`; `dir` is `filepath.Dir`.
unfoldable pub managed_snaps : (Bytes → Bytes) → Bytes → Bytes → List RootInfo → List RootInfo
unfolding has_suffix
managed_snaps dir directory name [] = []
managed_snaps dir directory name (s ∷ ss) =
    let rest = managed_snaps dir directory name ss in
    if s.deleted
    then rest
    else if not (has_prefix s.name name)
    then rest
    else if not (has_suffix directory (dir s.full_path))
    then rest
    else s ∷ rest

-- `FindRootMount` and `SubvolumeSearch` with the snapshots of a subvolume, which are ioctls.
pub record Search : Type 1 where
  pub Error : Type 0
  pub World : Type 0
  pub dir : Bytes → Bytes
  pub find_root_mount : Bytes → World → Outcome Error Bytes × World
  pub subvolume_search : Bytes → Bytes → World → Outcome Error (RootInfo × List RootInfo) × World

module _ (S : Search) where
  -- The loop of the search, with the tries after the first; it ends with the last error.
  unfoldable pub retry_search :
      ℕ
      → Bytes
      → Bytes
      → Outcome S.Error (RootInfo × List RootInfo) × S.World
      → Outcome S.Error (RootInfo × List RootInfo) × S.World
  retry_search tries mount path (ok info, w) = (ok info, w)
  retry_search zero mount path (err e, w) = (err e, w)
  retry_search (suc tries) mount path (err e, w) =
      retry_search tries mount path (S.subvolume_search mount path w)
  retry_search tries mount path (panic, w) = (panic, w)
  retry_search tries mount path (stuck, w) = (stuck, w)

  -- `ResolveSubvolumeDetails`: the subvolume, with its managed snapshots.
  unfoldable pub resolve_subvolume_details :
      Bytes → Bytes → Bytes → Action S.Error S.World (RootInfo × List RootInfo)
  unfolding retry_search managed_snaps
  resolve_subvolume_details path directory name = do
    mount ← S.find_root_mount path
    found ← (λ w. retry_search 3 mount path (S.subvolume_search mount path w))
    lift (ok (found.0, managed_snaps S.dir directory name found.1))

pub record IncrementalSnapshot : Type 0 where
  pub snapshot : RootInfo
  pub parent : Option RootInfo

-- The loop of `MapParents`, with the index.
unfoldable pub map_loop : List RootInfo → ℕ → List RootInfo → List IncrementalSnapshot
map_loop snapshots idx [] = []
map_loop snapshots idx (s ∷ ss) =
    record { snapshot = s; parent = if idx == 0 then none else get_elem? snapshots (idx - 1) }
    ∷ map_loop snapshots (suc idx) ss

-- `MapParents`, with `sort.Slice` by ascending creation time.
unfoldable pub map_parents :
    (List RootInfo → List RootInfo) → List RootInfo → List IncrementalSnapshot
unfolding map_loop
map_parents sort_ascending snapshots =
    map_loop (sort_ascending snapshots) 0 (sort_ascending snapshots)

unfoldable pub get_snapshot_by_name : List RootInfo → Bytes → Option RootInfo
get_snapshot_by_name [] name = none
get_snapshot_by_name (s ∷ ss) name =
    if bytes_eq s.name name then some s else get_snapshot_by_name ss name

unfoldable pub snapshot_slice_contains : List RootInfo → Bytes → Bool
snapshot_slice_contains [] name = false
snapshot_slice_contains (s ∷ ss) name = bytes_eq name s.name || snapshot_slice_contains ss name

unfoldable pub snapshot_uuid_exists : List RootInfo → Bytes → Bool
snapshot_uuid_exists [] uu = false
snapshot_uuid_exists (s ∷ ss) uu = bytes_eq s.uuid uu || snapshot_uuid_exists ss uu

-- The two columns of the result.
abbrev pub snapshots_of : List IncrementalSnapshot → List RootInfo
snapshots_of [] = []
snapshots_of (i ∷ is) = i.snapshot ∷ snapshots_of is

abbrev pub parents_of : List IncrementalSnapshot → List (Option RootInfo)
parents_of [] = []
parents_of (i ∷ is) = i.parent ∷ parents_of is

-- Each element before the last, as a parent of the next.
abbrev pub shifted : Option RootInfo → List RootInfo → List (Option RootInfo)
shifted before [] = []
shifted before (s ∷ ss) = before ∷ shifted (some s) ss

map_loop-snapshots : (all ss : List RootInfo) (idx : ℕ) → snapshots_of (map_loop all idx ss) ≡ ss
unfolding map_loop
map_loop-snapshots all [] idx = refl
map_loop-snapshots all (s ∷ ss) idx = ap (λ t. s ∷ t) (map_loop-snapshots all ss (suc idx))

parent_before :
    (pre rest : List RootInfo) (p : RootInfo) (n : ℕ)
    → n ≡ length pre
    → (if suc n == 0 then none else get_elem? (pre ++ p ∷ rest) (suc n - 1)) ≡ some p
parent_before pre rest p n e =
    rw (==_ne (suc n) 0 (omega arith))
      (ap (get_elem? (pre ++ p ∷ rest)) (omega (arith, e)) ∙ get_elem?-append pre rest p)

map_loop-parents :
    (all pre : List RootInfo) (p : RootInfo) (ss : List RootInfo) (n : ℕ)
    → all ≡ pre ++ p ∷ ss
    → n ≡ length pre
    → parents_of (map_loop all (suc n) ss) ≡ shifted (some p) ss
unfolding map_loop
map_loop-parents all pre p [] n e h = refl
map_loop-parents all pre p (s ∷ ss) n e h =
    cons_eq
      (ap (λ x. if suc n == 0 then none else get_elem? x (suc n - 1)) e
        ∙ parent_before pre (s ∷ ss) p n h)
      (map_loop-parents all (pre ++ p ∷ []) s ss (suc n)
        (e ∙ sym (append_assoc pre (p ∷ []) (s ∷ ss)))
        (omega (arith, h, length-append pre (p ∷ []))))
  where
    cons_eq :
        {a b : Option RootInfo} {as' bs : List (Option RootInfo)}
        → a ≡ b
        → as' ≡ bs
        → Path (List (Option RootInfo)) (a ∷ as') (b ∷ bs)
    cons_eq e f = cc

-- MapParents gives the sorted snapshots in order, the first without a parent, and each other with
-- the one before it as its parent.
pub map_parents-shifted :
    (sort_ascending : List RootInfo → List RootInfo) (snapshots : List RootInfo)
    → (snapshots_of (map_parents sort_ascending snapshots) ≡ sort_ascending snapshots)
      × (parents_of (map_parents sort_ascending snapshots)
          ≡ shifted none (sort_ascending snapshots))
unfolding map_parents
map_parents-shifted sort_ascending snapshots = (
  map_loop-snapshots (sort_ascending snapshots) (sort_ascending snapshots) 0,
  all_parents (sort_ascending snapshots),
)
  where
    all_parents : (ss : List RootInfo) → parents_of (map_loop ss 0 ss) ≡ shifted none ss
    all_parents [] = unfold map_loop in refl
    all_parents (s ∷ ss) =
        unfold map_loop in ap (λ t. none ∷ t) (map_loop-parents (s ∷ ss) [] s ss 0 refl refl)
