-- ===== src/Btrfs/RootTree/Adding.antt =====
-- Which infos the tree of `BuildRBTree` of pkg/btrfs/subvolume_root_tree.go holds.
use btrsync.Common.{
  ℕ, suc, ◌+◌, ◌<◌, ◌≤◌, Bool, Option, none, some, List, [], ◌∷◌, ◌++◌, length, length-append, All,
  All-map, All-append, All-zip, ◌≡◌, refl, ap, ◌∙◌, ◌==◌, ◌||◌, true, false, Option-cases,
  Bool-cases, inl, inr, if◌then◌else◌, arith,
}
use mathlib.Core.Path.{subst}
use btrsync.Common.Outcome.{ok}
use btrsync.Btrfs.RootTree.{
  Root, Heap, Info, store, lookup, updated, add_root, add_roots, new_rb_root,
}
use btrsync.Btrfs.RootTree.Spine.{
  Entry, head_of, IsInfo, Cells, Below, find, Cells-linked, store-same,
}
use btrsync.Btrfs.RootTree.Building.{
  Spine, Cells-frame, lookup-Spine, link_all, with_info, entry_of, Spine-with_info, add_root-new,
  add_root-known, IsInfo-updated, find-IsInfo, find-none_above, Ascending-append,
}

-- The numbers of the entries, and whether one is among them.
abbrev pub ids : List Entry → List ℕ
ids [] = []
ids (e ∷ es) = e.id ∷ ids es

unfoldable pub has : ℕ → List ℕ → Bool
has id [] = false
has id (k ∷ ks) = k == id || has id ks

-- The numbers without the ones that came before.
unfoldable pub add_once : List ℕ → ℕ → List ℕ
unfolding has
add_once ks id = if has id ks then ks else ks ++ id ∷ []

abbrev pub distinct : List ℕ → List ℕ → List ℕ
distinct seen [] = seen
distinct seen (id ∷ rest) = distinct (add_once seen id) rest

abbrev pub NonDecreasing : List ℕ → Type 0
NonDecreasing [] = Unit
NonDecreasing (k ∷ ks) = All (λ x. k ≤ x) ks × NonDecreasing ks

abbrev pub root_ids : List Info → List ℕ
root_ids [] = []
root_ids (i ∷ is) = i.fields.root_id ∷ root_ids is

has-find-none : (id : ℕ) (es : List Entry) → find id es ≡ none → has id (ids es) ≡ false
unfolding find has
has-find-none id [] h = refl
has-find-none id (e ∷ es) h = ground (arith, h, has-find-none id es)

has-find-some : (id i : ℕ) (es : List Entry) → find id es ≡ some i → has id (ids es) ≡ true
unfolding find has
has-find-some id i [] h = cc
has-find-some id i (e ∷ es) h = ground (arith, h, has-find-some id i es)

ids-append : (es : List Entry) (new : Entry) → ids (es ++ new ∷ []) ≡ ids es ++ new.id ∷ []
ids-append [] new = refl
ids-append (e ∷ es) new = ap (λ t. e.id ∷ t) (ids-append es new)

Spine-new :
    (info : Info) (es : List Entry) (h : Heap)
    → Spine h es
    → All (λ x. x.id < info.fields.root_id) es
    → Spine
        (record (with_info info h) { nodes = link_all h.fresh es (with_info info h).nodes })
        (es ++ entry_of info h ∷ [])
Spine-new info [] h spine above = (
  (
    store-same h.fresh _ h.nodes,
    ((record info { rb_node = some h.fresh }, store-same (suc h.fresh) _ h.infos, refl), tt),
  ),
  ((tt, tt), ((omega arith, omega arith), tt)),
)
Spine-new info (e ∷ es) h (cells, (asc, bounded)) above =
    let (cells', (asc', bounded')) = Spine-with_info info h (e ∷ es) (cells, (asc, bounded)) in
    (
      Cells-linked (entry_of info h) e es (with_info info h).nodes (with_info info h).infos cells'
          asc'
          (All-map (λ x. (x.at < h.fresh) × (x.info < h.fresh)) (λ x. x.at < h.fresh) (λ x b. b.0)
            (e ∷ es) bounded)
          (store-same h.fresh _ h.nodes)
          (record info { rb_node = some h.fresh }, store-same (suc h.fresh) _ h.infos, refl),
      (
        Ascending-append (e ∷ es) (entry_of info h) asc (
            All-map (λ x. ((x.at < h.fresh) × (x.info < h.fresh)) × (x.id < info.fields.root_id))
              (λ x. Below x (entry_of info h)) (λ x b. (b.0.0, b.1)) (e ∷ es)
              (All-zip (λ x. (x.at < h.fresh) × (x.info < h.fresh))
                (λ x. x.id < info.fields.root_id) (e ∷ es) bounded above)),
        All-append (λ x. (x.at < suc (suc h.fresh)) × (x.info < suc (suc h.fresh))) (e ∷ es)
            (entry_of info h ∷ []) bounded' ((omega arith, omega arith), tt),
      ),
    )

Spine-updated :
    (info old : Info) (j : ℕ) (es : List Entry) (h : Heap)
    → Spine h es
    → (with_info info h).infos j ≡ some old
    → Spine
        (record (with_info info h) {
          infos =
              store j
                (updated (record info { rb_node = some h.fresh }) old)
                (with_info info h).infos;
        })
        es
Spine-updated info old j es h spine there =
    let (cells, rest) = Spine-with_info info h es spine in
    (
      Cells-frame (with_info info h).nodes (with_info info h).nodes (with_info info h).infos _ es
          (All-map (λ e. (e.at < h.fresh) × (e.info < h.fresh)) _
            (λ e b. (
              refl,
              IsInfo-updated (with_info info h).infos (record info { rb_node = some h.fresh }) old j
                  e.info e.id there,
            ))
            es spine.1.1)
          cells,
      rest,
    )

-- The tree with an info that is added, and the heap of it.
abbrev Added : ℕ → Info → List Entry → Heap → Type 0
Added fuel info es h =
    (h' : Heap) × (es' : List Entry) × (add_root fuel (head_of es) info h ≡ (ok (head_of es'), h'))
    × Spine h' es'
    × (ids es' ≡ add_once (ids es) info.fields.root_id)
    × (length es' ≤ suc (length es))
    × All (λ x. x.id ≤ info.fields.root_id) es'

add_root-Added :
    (fuel : ℕ) (info : Info) (es : List Entry) (h : Heap)
    → length es ≤ fuel
    → Spine h es
    → All (λ x. x.id ≤ info.fields.root_id) es
    → Added fuel info es h
unfolding add_once
add_root-Added fuel info es h enough spine above =
    elim (Option-cases (find info.fields.root_id es)) [
      | inl e ↦ (
        _,
        es ++ entry_of info h ∷ [],
        add_root-new fuel info es h enough spine above e,
        Spine-new info es h spine (find-none_above info.fields.root_id es above e),
        ids-append es (entry_of info h) ∙ ground (arith, has-find-none info.fields.root_id es e),
        omega (arith, length-append es (entry_of info h ∷ [])),
        All-append (λ x. x.id ≤ info.fields.root_id) es (entry_of info h ∷ []) above
            (omega arith, tt),
      )
      | inr (j, e) ↦
          (let spine' = Spine-with_info info h es spine in
            let (old, there, same) =
              find-IsInfo (with_info info h).nodes (with_info info h).infos info.fields.root_id j es
                spine'.0 e in
            (
              _,
              es,
              add_root-known fuel j info old es h enough spine e there,
              Spine-updated info old j es h spine there,
              ground (arith, has-find-some info.fields.root_id j es e),
              omega arith,
              above,
            ))
    ]

-- The whole list, from the entries of the infos before.
abbrev AddedAll : ℕ → List Info → List Entry → Heap → Type 0
AddedAll fuel infos es h =
    (h' : Heap) × (es' : List Entry) × (add_roots fuel (head_of es) infos h
      ≡ (ok (head_of es'), h'))
    × Spine h' es'
    × (ids es' ≡ distinct (ids es) (root_ids infos))
    × (length es' ≤ length es + length infos)

add_roots-AddedAll :
    (fuel : ℕ) (infos : List Info) (es : List Entry) (h : Heap)
    → length es + length infos ≤ fuel
    → Spine h es
    → All (λ id. All (λ x. x.id ≤ id) es) (root_ids infos)
    → NonDecreasing (root_ids infos)
    → AddedAll fuel infos es h
unfolding add_roots
add_roots-AddedAll fuel [] es h enough spine above sorted = (h, es, refl, spine, refl, omega arith)
add_roots-AddedAll fuel (info ∷ infos) es h enough spine (le, above) (next, sorted) =
    let (h1, es1, added, spine1, ids1, length1, above1) =
      add_root-Added fuel info es h (omega (arith, enough)) spine le in
    let (h2, es2, rest, spine2, ids2, length2) =
      add_roots-AddedAll fuel infos es1 h1 (omega (arith, enough, length1)) spine1
        (All-map (λ id. info.fields.root_id ≤ id) (λ id. All (λ x. x.id ≤ id) es1)
          (λ id b.
            All-map (λ x. x.id ≤ info.fields.root_id) (λ x. x.id ≤ id) (λ x c. omega (arith, b, c))
              es1 above1)
          (root_ids infos) next)
        sorted in
    (
      h2,
      es2,
      rw (add_roots, added) rest,
      spine2,
      ids2 ∙ ap (λ k. distinct k (root_ids infos)) ids1,
      omega (arith, length1, length2),
    )

has-append : (id k : ℕ) (ks : List ℕ) → has id (ks ++ k ∷ []) ≡ (has id ks || k == id)
unfolding has
has-append id k [] = ground arith
has-append id k (j ∷ ks) = ground (arith, has-append id k ks)

has-add_once : (id k : ℕ) (ks : List ℕ) → has id (add_once ks k) ≡ (has id ks || k == id)
unfolding add_once
has-add_once id k ks = elim (Bool-cases (has k ks)) [
  | inl e ↦ rw e (elim (Bool-cases (k == id)) [
    | inl same ↦ ground (arith, same, e)
    | inr other ↦ ground (arith, other)
  ])
  | inr e ↦ rw e (has-append id k ks)
]

has-distinct : (id : ℕ) (seen ks : List ℕ) → has id (distinct seen ks) ≡ (has id seen || has id ks)
unfolding has
has-distinct id seen [] = ground arith
has-distinct id seen (k ∷ ks) =
    ground (arith, has-distinct id (add_once seen k) ks, has-add_once id k seen)

-- What a lookup gives: the info of the number if there is one, and nil if not.
abbrev pub Answer : Heap → ℕ → Bool → Option ℕ → Type 0
Answer h id true o = (i : ℕ) × (o ≡ some i) × IsInfo h.infos i id
Answer h id false o = o ≡ none

find-Answer :
    (h : Heap) (id : ℕ) (es : List Entry) (o : Option ℕ)
    → Cells h.nodes h.infos es
    → find id es ≡ o
    → Answer h id (has id (ids es)) o
find-Answer h id es none cells e = rw (Answer, has-find-none id es e) refl
find-Answer h id es (some i) cells e =
    rw (Answer, has-find-some id i es e) (i, refl, find-IsInfo h.nodes h.infos id i es cells e)

-- The tree that BuildRBTree makes of items whose root numbers do not go down, as a search gives
-- them, is complete: nothing panics, the recursion ends on fuel of the number of items, and then
-- LookupRoot gives for each number of an item an info of that number, and nil for all others.
pub add_roots-lookup :
    (fuel : ℕ) (infos : List Info) (h : Heap)
    → length infos ≤ fuel
    → NonDecreasing (root_ids infos)
    → (h' : Heap) × (root : Root) × (add_roots fuel new_rb_root infos h ≡ (ok root, h'))
      × ((id : ℕ)
          → (o : Option ℕ) × (lookup fuel root id h' ≡ (ok o, h'))
            × Answer h' id (has id (root_ids infos)) o)
unfolding has
add_roots-lookup fuel infos h enough sorted =
    let (h', es, added, spine, same, size) =
      add_roots-AddedAll fuel infos [] h (omega (arith, enough)) (tt, (tt, tt))
        (no_entries (root_ids infos)) sorted in
    (
      h',
      head_of es,
      added,
      λ id. (
        find id es,
        lookup-Spine fuel id es h' (omega (arith, enough, size)) spine,
        subst (λ b. Answer h' id b (find id es))
            (ap (has id) same ∙ has-distinct id [] (root_ids infos))
            (find-Answer h' id es (find id es) spine.0 refl),
      ),
    )
  where
    no_entries : (ks : List ℕ) → All (λ id. All (λ (x : Entry). x.id ≤ id) []) ks
    no_entries [] = tt
    no_entries (k ∷ ks) = (tt, no_entries ks)
