-- ===== src/Btrfs/RootTree.antt =====
-- The tree of pkg/btrfs/btrfs_rb_tree.go on a heap of nodes and infos: a pointer is a number, and nil
-- is `none`. Nodes are changed in place, so two trees may share infos.
pub mod Iterate
pub mod Keeps
pub mod Filter
pub mod Spine
pub mod Building
pub mod Adding
use btrsync.Common.{
  ℕ, zero, suc, ◌+◌, Bool, true, false, ◌||◌, Option, none, some, List, [], ◌∷◌, replicate, ltb,
  ◌==◌, if◌then◌else◌,
}
use mathlib.Core.Option.{or_else}
use btrsync.Common.Bytes.{Bytes, bytes_eq}
use btrsync.Common.Outcome.{Outcome, ok, panic, stuck, bind_state}
use btrsync.Common.Action.{Action, ◌>>=◌, ◌>>◌, lift}
use btrsync.Common.Paths.{is_empty}
use btrsync.Btrfs.RootInfo.{RootInfo}

-- `RBNode`
pub record Node : Type 0 where
  pub left : Option ℕ
  pub right : Option ℕ
  pub info : ℕ

-- `RootInfo` with its pointers.
pub record Info : Type 0 where
  pub rb_node : Option ℕ
  pub fields : RootInfo
  pub item : Option ℕ
  pub ref : Option ℕ

pub record Heap : Type 0 where
  pub nodes : ℕ → Option Node
  pub infos : ℕ → Option Info
  pub fresh : ℕ

-- `RBRoot` is its pointer to the root node. A new one (`newRBRoot`) is `none`.
abbrev pub Root : Type 0
Root = Option ℕ

abbrev pub new_rb_root : Root
new_rb_root = none

abbrev pub store {ℓ} : {A : Type ℓ} → ℕ → A → (ℕ → Option A) → ℕ → Option A
store p a f q = if p == q then some a else f q

-- An action on the heap. There is no error, but a panic at a nil pointer.
abbrev pub T : Type 0 → Type 0
T = Action (Unit {0}) Heap

unfoldable pub deref {ℓ} : {A : Type ℓ} → Option A → Outcome (Unit {0}) A
deref none = panic
deref (some a) = ok a

unfoldable pub node_at : ℕ → Heap → Outcome (Unit {0}) Node × Heap
node_at p h = (deref (h.nodes p), h)

unfoldable pub info_at : ℕ → Heap → Outcome (Unit {0}) Info × Heap
info_at p h = (deref (h.infos p), h)

unfoldable pub set_node : ℕ → Node → T (Unit {0})
set_node p n h = (ok tt, record h { nodes = store p n h.nodes })

unfoldable pub set_info : ℕ → Info → T (Unit {0})
set_info p i h = (ok tt, record h { infos = store p i h.infos })

-- `node.Info.RootID`
unfoldable pub root_id_of : ℕ → T ℕ
unfolding info_at
root_id_of i = do info ← info_at i; lift (ok info.fields.root_id)

-- A pointer that is nil, or not.
abbrev pub or_child {ℓ} : {A : Type ℓ} → Option ℕ → A → (ℕ → A) → A
or_child none leaf go = leaf
or_child (some p) leaf go = go p

-- The second half of `insertRoot`.
unfoldable pub insert_right : (ℕ → Option ℕ → ℕ → T (Unit {0})) → ℕ → Option ℕ → ℕ → T (Unit {0})
unfolding node_at set_node
insert_right go p new_node id = do
  n ← node_at p
  or_child n.right (set_node p (record n { right = new_node })) (λ r. go r new_node id)

-- `insertRoot`, with the node of `info` and its number. After the insertion on the left it goes on
-- to the right.
unfoldable pub insert_root : ℕ → ℕ → Option ℕ → ℕ → T (Unit {0})
unfolding node_at root_id_of set_node insert_right
insert_root zero p new_node id = lift stuck
insert_root (suc fuel) p new_node id = do
  n ← node_at p
  here ← root_id_of n.info
  (if ltb id here
      then or_child n.left (set_node p (record n { left = new_node }))
          (λ l. insert_root fuel l new_node id >> insert_right (insert_root fuel) p new_node id)
      else insert_right (insert_root fuel) p new_node id)

-- `InsertRoot`
unfoldable pub insert : ℕ → Root → ℕ → T Root
unfolding info_at insert_root
insert fuel root i = do
  info ← info_at i
  elim root [
    | none ↦ lift (ok info.rb_node)
    | some p ↦ (do insert_root fuel p info.rb_node info.fields.root_id; lift (ok (some p)))
  ]

-- `lookupRoot` and `LookupRoot`
unfoldable pub lookup_root : ℕ → ℕ → ℕ → T (Option ℕ)
unfolding node_at root_id_of
lookup_root zero p id = lift stuck
lookup_root (suc fuel) p id = do
  n ← node_at p
  here ← root_id_of n.info
  (if here == id
      then lift (ok (some n.info))
      else if ltb id here
      then or_child n.left (lift (ok none)) (λ l. lookup_root fuel l id)
      else or_child n.right (lift (ok none)) (λ r. lookup_root fuel r id))

unfoldable pub lookup : ℕ → Root → ℕ → T (Option ℕ)
unfolding lookup_root
lookup fuel root id = or_child root (lift (ok none)) (λ p. lookup_root fuel p id)

abbrev pub nil_uuid : Bytes
nil_uuid = replicate 16 0

-- A field is overwritten unless the new value is the zero value.
unfoldable pub new_nat : ℕ → ℕ → ℕ
new_nat new old = if new == 0 then old else new

unfoldable pub new_uuid : Bytes → Bytes → Bytes
new_uuid new old = if bytes_eq new nil_uuid then old else new

unfoldable pub new_text : Bytes → Bytes → Bytes
new_text new old = if is_empty new then old else new

unfoldable pub updated : Info → Info → Info
unfolding new_nat new_uuid new_text or_else
updated new old =
    let i = new.fields in
    let o = old.fields in
    record {
      rb_node = old.rb_node;
      fields = record {
        root_id = o.root_id;
        root_offset = new_nat i.root_offset o.root_offset;
        flags = new_nat i.flags o.flags;
        ref_tree = new_nat i.ref_tree o.ref_tree;
        dir_id = new_nat i.dir_id o.dir_id;
        top_id = new_nat i.top_id o.top_id;
        generation = new_nat i.generation o.generation;
        original_generation = new_nat i.original_generation o.original_generation;
        creation_time = new_nat i.creation_time o.creation_time;
        send_time = new_nat i.send_time o.send_time;
        receive_time = new_nat i.receive_time o.receive_time;
        uuid = new_uuid i.uuid o.uuid;
        parent_uuid = new_uuid i.parent_uuid o.parent_uuid;
        received_uuid = new_uuid i.received_uuid o.received_uuid;
        path = new_text i.path o.path;
        name = new_text i.name o.name;
        full_path = new_text i.full_path o.full_path;
        deleted = i.deleted || o.deleted;
      };
      item = or_else new.item old.item;
      ref = or_else new.ref old.ref;
    }

-- `UpdateRoot`
unfoldable pub update : ℕ → Root → ℕ → T Bool
unfolding info_at lookup set_info updated
update fuel root i = do
  new ← info_at i
  found ← lookup fuel root new.fields.root_id
  or_child found (lift (ok false))
      (λ j. (do old ← info_at j; set_info j (updated new old); lift (ok true)))

-- `node := &RBNode{Info: …}` and `node.Info.RBNode = node`: the pointer to the info.
unfoldable pub new_info : Info → T ℕ
new_info info h = (
  ok (suc h.fresh),
  record {
    nodes = store h.fresh (record { left = none; right = none; info = suc h.fresh }) h.nodes;
    infos = store (suc h.fresh) (record info { rb_node = some h.fresh }) h.infos;
    fresh = suc (suc h.fresh);
  },
)

-- What `BuildRBTree` (pkg/btrfs/subvolume_root_tree.go) does with an item of its search.
unfoldable pub add_root : ℕ → Root → Info → T Root
unfolding new_info update insert
add_root fuel root info = do
  i ← new_info info
  known ← update fuel root i
  (if known then lift (ok root) else insert fuel root i)

unfoldable pub add_roots : ℕ → Root → List Info → T Root
unfolding add_root
add_roots fuel root [] = lift (ok root)
add_roots fuel root (info ∷ infos) = do root' ← add_root fuel root info; add_roots fuel root' infos
