-- ===== src/Btrfs/RootTree/Filter.antt =====
-- `FilterFromRoot` and `resolveFullPaths` of pkg/btrfs/btrfs_rb_tree.go.
use btrsync.Common.{
  ℕ, zero, suc, Option, none, some, ◌∷◌, ◌++◌, Bool, not, ◌||◌, ◌&&◌, ◌==◌, if◌then◌else◌,
}
use btrsync.Common.Bytes.{Bytes}
use btrsync.Common.Outcome.{ok, stuck, bind_state}
use btrsync.Common.Action.{◌>>=◌, ◌>>◌, lift}
use btrsync.Common.Paths.{is_empty}
use btrsync.Btrfs.RootInfo.{RootInfo}
use btrsync.Btrfs.RootTree.{
  Root, Heap, Info, T, info_at, set_info, or_child, new_rb_root, store, insert, lookup,
}
use btrsync.Btrfs.RootTree.Iterate.{
  IterError, other_error, I, Callback, in_order_iterate, pre_order_iterate,
}

-- The heap, and the tree that is built.
pub record Filtering : Type 0 where
  pub heap : Heap
  pub tree : Root

abbrev heap_of : Filtering → Heap
heap_of s = s.heap

-- An action on the heap alone.
unfoldable pub on_heap : {A : Type 0} → T A → I heap_of A
on_heap f s = let (r, h) = f s.heap in (r, record s { heap = h })

unfoldable pub get_tree : I heap_of Root
get_tree s = (ok s.tree, s)

unfoldable pub set_tree : Root → I heap_of (Unit {0})
set_tree root s = (ok tt, record s { tree = root })

-- `node := &RBNode{Info: inf}` and `inf.RBNode = node`
unfoldable pub new_node_of : ℕ → T (Unit {0})
unfolding info_at
new_node_of i = do
  info ← info_at i
  (λ h. (
    ok tt,
    record {
      nodes = store h.fresh (record { left = none; right = none; info = i }) h.nodes;
      infos = store i (record info { rb_node = some h.fresh }) h.infos;
      fresh = suc h.fresh;
    },
  ))

unfoldable pub keep_info : ℕ → ℕ → I heap_of (Option IterError)
unfolding on_heap new_node_of get_tree insert set_tree
keep_info fuel i = do
  on_heap (new_node_of i)
  tree ← get_tree
  tree' ← on_heap (insert fuel tree i)
  set_tree tree'
  lift (ok none)

unfoldable pub is_under : ℕ → RootInfo → Bool
is_under id f = f.root_id == id || f.ref_tree == id

-- The loop up to the ancestors of an info, on fuel.
unfoldable pub climb : ℕ → ℕ → ℕ → ℕ → Option ℕ → I heap_of (Option IterError)
unfolding on_heap info_at get_tree lookup is_under keep_info
climb size zero id i parent = lift stuck
climb size (suc fuel) id i parent = or_child parent (lift (ok none)) λ p. (do
  info ← on_heap (info_at p)
  (if info.fields.ref_tree == 0 then lift (ok none) else (do
    tree ← get_tree
    next ← on_heap (lookup size tree info.fields.ref_tree)
    or_child next (lift (ok none)) λ q. (do
      above ← on_heap (info_at q)
      (if is_under id above.fields then keep_info size i else climb size fuel id i next)))))

unfoldable pub filter_visit : ℕ → ℕ → Callback heap_of
unfolding on_heap info_at is_under keep_info get_tree lookup climb
filter_visit size id i last = do
  info ← on_heap (info_at i)
  (if is_under id info.fields then keep_info size i else (do
    tree ← get_tree
    parent ← on_heap (lookup size tree info.fields.ref_tree)
    climb size size id i parent))

-- `size` is the fuel of the loops and of the recursion in the two trees.
unfoldable pub filter_from_root : ℕ → Root → ℕ → T Root
unfolding in_order_iterate filter_visit
filter_from_root size root id h =
    let (r, s) =
      in_order_iterate heap_of size root (filter_visit size id)
        (record { heap = h; tree = new_rb_root }) in
    bind_state (r, s.heap) (λ _ h'. (ok s.tree, h'))

abbrev pub fs_tree_object_id : ℕ
fs_tree_object_id = 0x5

-- `lookupInoPath` of pkg/btrfs/subvolume_lookup.go: the ioctl gives the path of a directory in a
-- tree, and `none` is an error of it.
unfoldable pub lookup_ino_path : (ℕ → ℕ → Option Bytes) → RootInfo → Option Bytes
lookup_ino_path ino_lookup f = elim (ino_lookup f.ref_tree f.dir_id) [
  | none ↦ none
  | some name ↦ some (if is_empty name then f.name else name ++ f.name)
]

-- The loop up to the root of the mount.
unfoldable pub climb_path : ℕ → ℕ → Root → ℕ → ℕ → Bytes → T Bytes
unfolding lookup info_at
climb_path size zero root top next path = lift stuck
climb_path size (suc fuel) root top next path =
    if not (next == top) && not (next == fs_tree_object_id)
    then (do
      found ← lookup size root next
      or_child found (lift (ok path)) λ j. (do
        info ← info_at j
        climb_path size fuel root top info.fields.ref_tree (info.fields.name ++ 47 ∷ path)))
    else lift (ok path)

unfoldable pub set_full_path : ℕ → Root → ℕ → ℕ → Info → Bytes → T (Option IterError)
unfolding set_info climb_path
set_full_path size root top i info path = do
  set_info i (record info { fields = record (info.fields) { path = path } })
  full ← climb_path size size root top info.fields.ref_tree path
  set_info i (record info { fields = record (info.fields) { path = path; full_path = full } })
  lift (ok none)

unfoldable pub resolve_visit :
    (ℕ → ℕ → Option Bytes) → ℕ → Root → ℕ → ℕ → Option IterError → T (Option IterError)
unfolding info_at set_info lookup_ino_path set_full_path
resolve_visit ino_lookup size root top i (some e) = lift (ok (some e))
resolve_visit ino_lookup size root top i none = do
  old ← info_at i
  let info : Info = record old {
    fields = record (old.fields) { deleted = old.fields.ref_tree == 0 };
  }
  set_info i info
  (if not (is_empty info.fields.path) || info.fields.ref_tree == 0
      then lift (ok none)
      else elim (lookup_ino_path ino_lookup info.fields) [
        | none ↦ lift (ok (some other_error))
        | some path ↦ set_full_path size root top i info path
      ])

unfoldable pub resolve_full_paths :
    (ℕ → ℕ → Option Bytes) → Bool → ℕ → Root → ℕ → T (Option IterError)
unfolding pre_order_iterate resolve_visit
resolve_full_paths ino_lookup opens size root top =
    if opens
    then pre_order_iterate (λ h. h) size root (resolve_visit ino_lookup size root top)
    else lift (ok (some other_error))
