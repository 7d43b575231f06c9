-- ===== src/Btrfs/RootTree/Building.antt =====
-- The tree that `BuildRBTree` of pkg/btrfs/subvolume_root_tree.go makes of items in ascending order.
use btrsync.Common.{
  ℕ, suc, ◌<◌, ◌≤◌, Option, none, some, List, [], ◌∷◌, ◌++◌, length, All, All-map, All-append, ◌≡◌,
  refl, ap, sym, ◌∙◌, ◌==◌, Bool-cases, inl, inr, arith,
}
use mathlib.Core.Option.{some-injective}
use btrsync.Common.Outcome.{ok}
use btrsync.Btrfs.RootTree.{
  Heap, Node, Info, store, info_at, deref, set_info, insert, lookup, update, updated, new_info,
  add_root,
}
use btrsync.Btrfs.RootTree.Spine.{
  Entry, head_of, IsInfo, Cells, Below, Ascending, find, lookup_root-Cells, linked,
  insert_root-Cells, store-same, store-other,
}

-- Pointers that were given out.
abbrev pub Bounded : ℕ → List Entry → Type 0
Bounded n es = All (λ e. (e.at < n) × (e.info < n)) es

abbrev pub Spine : Heap → List Entry → Type 0
Spine h es = Cells h.nodes h.infos es × (Ascending es × Bounded h.fresh es)

pub Cells-frame :
    (nodes nodes' : ℕ → Option Node) (infos infos' : ℕ → Option Info) (es : List Entry)
    → All
        (λ e. (nodes' e.at ≡ nodes e.at) × (IsInfo infos e.info e.id → IsInfo infos' e.info e.id))
        es
    → Cells nodes infos es
    → Cells nodes' infos' es
Cells-frame nodes nodes' infos infos' [] frame cells = tt
Cells-frame nodes nodes' infos infos' (e ∷ es) ((same, keeps), frame) (node, (info, cells)) =
    (same ∙ node, (keeps info, Cells-frame nodes nodes' infos infos' es frame cells))

pub lookup-Spine :
    (fuel id : ℕ) (es : List Entry) (h : Heap)
    → length es ≤ fuel
    → Spine h es
    → lookup fuel (head_of es) id h ≡ (ok (find id es), h)
unfolding lookup find
lookup-Spine fuel id [] h enough spine = refl
lookup-Spine fuel id (e ∷ es) h enough (cells, (asc, bounded)) =
    lookup_root-Cells fuel id e es h (omega (arith, enough)) cells asc

abbrev pub link_all : ℕ → List Entry → (ℕ → Option Node) → ℕ → Option Node
link_all q [] nodes = nodes
link_all q (e ∷ es) nodes = linked q e es nodes

insert-Spine :
    (fuel i : ℕ) (info : Info) (new : Entry) (es : List Entry) (h : Heap)
    → length es ≤ fuel
    → Cells h.nodes h.infos es
    → All (λ x. x.id ≤ new.id) es
    → h.infos i ≡ some info
    → info.rb_node ≡ some new.at
    → info.fields.root_id ≡ new.id
    → insert fuel (head_of es) i h
      ≡ (ok (head_of (es ++ new ∷ [])), record h { nodes = link_all new.at es h.nodes })
unfolding insert info_at deref
insert-Spine fuel i info new [] h enough cells above there node_is id_is = rw (there, node_is) refl
insert-Spine fuel i info new (e ∷ es) h enough cells above there node_is id_is =
    rw (there, node_is, id_is)
      (rw (insert_root-Cells fuel new.at new.id e es h (omega (arith, enough)) cells above) refl)

-- The heap with a new info, and the node of it.
abbrev pub with_info : Info → Heap → Heap
with_info info h = record {
  nodes = store h.fresh (record { left = none; right = none; info = suc h.fresh }) h.nodes;
  infos = store (suc h.fresh) (record info { rb_node = some h.fresh }) h.infos;
  fresh = suc (suc h.fresh);
}

abbrev pub entry_of : Info → Heap → Entry
entry_of info h = record { at = h.fresh; info = suc h.fresh; id = info.fields.root_id }

pub Spine-with_info :
    (info : Info) (h : Heap) (es : List Entry) → Spine h es → Spine (with_info info h) es
Spine-with_info info h es (cells, (asc, bounded)) = (
  Cells-frame h.nodes (with_info info h).nodes h.infos (with_info info h).infos es
      (All-map (λ e. (e.at < h.fresh) × (e.info < h.fresh)) _
        (λ e b. (
          store-other h.fresh e.at _ h.nodes (omega (arith, b.0)),
          λ is.
              (is.0, store-other (suc h.fresh) e.info _ h.infos (omega (arith, b.1)) ∙ is.1, is.2),
        ))
        es bounded)
      cells,
  (
    asc,
    All-map (λ e. (e.at < h.fresh) × (e.info < h.fresh))
        (λ e. (e.at < suc (suc h.fresh)) × (e.info < suc (suc h.fresh)))
        (λ e b. (omega (arith, b.0), omega (arith, b.1))) es bounded,
  ),
)

pub add_root-new :
    (fuel : ℕ) (info : Info) (es : List Entry) (h : Heap)
    → length es ≤ fuel
    → Spine h es
    → All (λ x. x.id ≤ info.fields.root_id) es
    → find info.fields.root_id es ≡ none
    → add_root fuel (head_of es) info h ≡ (
      ok (head_of (es ++ entry_of info h ∷ [])),
      record (with_info info h) { nodes = link_all h.fresh es (with_info info h).nodes },
    )
unfolding add_root new_info update info_at deref
add_root-new fuel info es h enough spine above unknown =
    let spine' = Spine-with_info info h es spine in
    rw
      (
        add_root,
        store-same (suc h.fresh) (record info { rb_node = some h.fresh }) h.infos,
        lookup-Spine fuel info.fields.root_id es (with_info info h) enough spine',
        unknown,
      )
      (insert-Spine fuel (suc h.fresh) (record info { rb_node = some h.fresh }) (entry_of info h) es
        (with_info info h) enough spine'.0 above
        (store-same (suc h.fresh) (record info { rb_node = some h.fresh }) h.infos) refl refl)

pub add_root-known :
    (fuel j : ℕ) (info old : Info) (es : List Entry) (h : Heap)
    → length es ≤ fuel
    → Spine h es
    → find info.fields.root_id es ≡ some j
    → (with_info info h).infos j ≡ some old
    → add_root fuel (head_of es) info h ≡ (
      ok (head_of es),
      record (with_info info h) {
        infos =
            store j (updated (record info { rb_node = some h.fresh }) old) (with_info info h).infos;
      },
    )
unfolding add_root new_info update info_at deref set_info
add_root-known fuel j info old es h enough spine known there =
    rw
      (
        add_root,
        store-same (suc h.fresh) (record info { rb_node = some h.fresh }) h.infos,
        lookup-Spine fuel info.fields.root_id es (with_info info h) enough
            (Spine-with_info info h es spine),
        known,
        there,
      )
      refl

-- An update keeps the number of the info.
pub IsInfo-updated :
    (infos : ℕ → Option Info) (new old : Info) (j i id : ℕ)
    → infos j ≡ some old
    → IsInfo infos i id
    → IsInfo (store j (updated new old) infos) i id
unfolding updated
IsInfo-updated infos new old j i id there (info, is, same) = elim (Bool-cases (j == i)) [
  | inl e ↦ (
    updated new old,
    ground (arith, e),
    ap (λ x. x.fields.root_id)
          (some-injective old info (sym there ∙ ap infos (ground (arith, e)) ∙ is))
        ∙ same,
  )
  | inr e ↦ (info, ground (arith, e, is), same)
]

pub find-IsInfo :
    (nodes : ℕ → Option Node) (infos : ℕ → Option Info) (id j : ℕ) (es : List Entry)
    → Cells nodes infos es
    → find id es ≡ some j
    → IsInfo infos j id
unfolding find
find-IsInfo nodes infos id j [] cells h = cc
find-IsInfo nodes infos id j (e ∷ es) (node, ((info, is, same), cells)) h =
    elim (Bool-cases (e.id == id)) [
      | inl eq ↦ (
        info,
        ap infos (sym (some-injective e.info j (ground (arith, eq, h)))) ∙ is,
        same ∙ ground (arith, eq),
      )
      | inr ne ↦ find-IsInfo nodes infos id j es cells (ground (arith, ne, h))
    ]

pub find-none_above :
    (id : ℕ) (es : List Entry)
    → All (λ x. x.id ≤ id) es
    → find id es ≡ none
    → All (λ x. x.id < id) es
unfolding find
find-none_above id [] above h = tt
find-none_above id (e ∷ es) (le, above) h = elim (Bool-cases (e.id == id)) [
  | inl eq ↦ ground (arith, eq, h)
  | inr ne ↦ (ground (arith, le, ne), find-none_above id es above (ground (arith, ne, h)))
]

pub Ascending-append :
    (es : List Entry) (new : Entry)
    → Ascending es
    → All (λ x. Below x new) es
    → Ascending (es ++ new ∷ [])
Ascending-append [] new asc above = (tt, tt)
Ascending-append (e ∷ es) new (front, asc) (lt, above) =
    (All-append (Below e) es (new ∷ []) front (lt, tt), Ascending-append es new asc above)
