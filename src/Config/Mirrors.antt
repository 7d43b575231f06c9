-- ===== src/Config/Mirrors.antt =====
-- Which mirrors `ResolveMirrors` of pkg/cmd/config/config.go gives.
use btrsync.Common.{
  true, false, some, List, [], ◌∷◌, ◌++◌, ◌≡◌, refl, All, All-map, Bool-cases, Option-cases, inl,
  inr, arith, ap, sym, ◌∙◌,
}
use mathlib.Core.Option.{some-injective}
use mathlib.Core.Path.{subst}
use btrsync.Common.Bytes.{Bytes, bytes_eq, bytes_eq_iff}
use btrsync.Common.Paths.{Paths, contains_text}
use btrsync.Config.{
  Mirror, Subvolume, Volume, Config, get_mirror, get_mirror_of, get_volume, get_subvolume,
}
use btrsync.Config.Resolve.{
  is_mirror_excluded, filter_excluded_mirrors, named_mirrors, resolve_mirrors,
}

-- A mirror that is found has the name that was looked up.
get_mirror_of-name :
    (ms : List Mirror) (name : Bytes) (m : Mirror) → get_mirror_of ms name ≡ some m → m.name ≡ name
unfolding get_mirror_of
get_mirror_of-name [] name m h = cc
get_mirror_of-name (x ∷ ms) name m h = elim (Bool-cases (bytes_eq x.name name)) [
  | inl e ↦
      ap (λ y. y.name) (some-injective m x (sym h ∙ ground (arith, e)))
      ∙ (bytes_eq_iff x.name name).0 e
  | inr e ↦ get_mirror_of-name ms name m (ground (arith, e, h))
]

bytes_eq_refl : (s : Bytes) → bytes_eq s s ≡ true
bytes_eq_refl s = (bytes_eq_iff s s).1 refl

-- A mirror that the configuration names, that is one of the names, and that is not excluded.
unfoldable pub Wanted : Config → Subvolume → List Bytes → Mirror → Type 0
Wanted c s names m =
    (get_mirror c m.name ≡ some m)
    × (contains_text names m.name ≡ true)
    × (is_mirror_excluded s m.name ≡ false)

module _ (c : Config) where
  Named : List Bytes → Mirror → Type 0
  Named names m = (get_mirror c m.name ≡ some m) × (contains_text names m.name ≡ true)

  Named-cons :
      (name : Bytes) (names : List Bytes) (m : Mirror) → Named names m → Named (name ∷ names) m
  unfolding Named contains_text
  Named-cons name names m (found, among) = (found, ground (arith, among))

  Named-head :
      (name : Bytes) (names : List Bytes) (m : Mirror)
      → get_mirror c name ≡ some m
      → Named (name ∷ names) m
  unfolding Named contains_text get_mirror
  Named-head name names m h =
      let e = get_mirror_of-name c.mirrors name m h in
      (
        subst (λ x. get_mirror c x ≡ some m) (sym e) h,
        subst (λ x. contains_text (name ∷ names) x ≡ true) (sym e)
            (ground (arith, bytes_eq_refl name)),
      )

  named_mirrors-Named : (names : List Bytes) → All (Named names) (named_mirrors c names)
  unfolding named_mirrors
  named_mirrors-Named [] = tt
  named_mirrors-Named (name ∷ names) =
      let rest =
        All-map (Named names) (Named (name ∷ names)) (Named-cons name names) (named_mirrors c names)
          (named_mirrors-Named names) in
      elim (Option-cases (get_mirror c name)) [
        | inl e ↦ rw (All, named_mirrors, e) rest
        | inr (m, e) ↦ rw (All, named_mirrors, e) (Named-head name names m e, rest)
      ]

  filter_excluded_mirrors-Wanted :
      (s : Subvolume) (names : List Bytes) (ms : List Mirror)
      → All (Named names) ms
      → All (Wanted c s names) (filter_excluded_mirrors s ms)
  unfolding filter_excluded_mirrors Named Wanted
  filter_excluded_mirrors-Wanted s names [] h = tt
  filter_excluded_mirrors-Wanted s names (m ∷ ms) ((found, among), h) =
      let rest = filter_excluded_mirrors-Wanted s names ms h in
      elim (Bool-cases (is_mirror_excluded s m.name)) [
        | inl e ↦ rw e rest
        | inr e ↦ rw e ((found, among, e), rest)
      ]

  -- For a volume and a subvolume that are found by their names, each mirror that ResolveMirrors
  -- gives is one that GetMirror finds by its name, is named by the volume or the subvolume, and is
  -- not one that the subvolume excludes.
  pub resolve_mirrors-Wanted :
      (F : Paths) (v : Volume) (s : Subvolume) (vol subvol : Bytes)
      → get_volume F c vol ≡ some v
      → get_subvolume F v subvol ≡ some s
      → All (Wanted c s (v.mirrors ++ s.mirrors)) (resolve_mirrors F c vol subvol)
  unfolding resolve_mirrors
  resolve_mirrors-Wanted F v s vol subvol hv hs =
      rw (All, resolve_mirrors, hv, hs)
        (filter_excluded_mirrors-Wanted s (v.mirrors ++ s.mirrors) _
          (named_mirrors-Named (v.mirrors ++ s.mirrors)))
