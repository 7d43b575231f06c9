-- ===== src/Tests/Trees.antt =====
-- The theorems on the tree of root infos applied at a concrete search result.
use btrsync.Common.Bytes.{bytes_eq}
use btrsync.Receivers.Local.{BuiltTree, find_parent}
use btrsync.Receivers.Local.Parent.{Matches, find_parent-Matches}
use btrsync.Common.{ℕ, ◌+◌, Option, none, some, List, [], ◌∷◌, ◌≡◌, refl, arith, false}
use btrsync.Common.Outcome.{ok}
use btrsync.Btrfs.RootInfo.{RootInfo}
use btrsync.Btrfs.RootTree.{Heap, Info, Root, new_rb_root, add_roots, lookup}
use btrsync.Btrfs.RootTree.Adding.{Answer, has, root_ids, add_roots-lookup}

abbrev root_at : ℕ → RootInfo
root_at id = record {
  root_id = id;
  root_offset = 0;
  flags = 0;
  ref_tree = 5;
  dir_id = 0;
  top_id = 0;
  generation = 0;
  original_generation = 0;
  creation_time = 0;
  send_time = 0;
  receive_time = 0;
  uuid = [];
  parent_uuid = [];
  received_uuid = [];
  path = [];
  name = [];
  full_path = [];
  deleted = false;
}

abbrev info_at : ℕ → Info
info_at id = record { rb_node = none; fields = root_at id; item = none; ref = none }

-- An item and a reference of 256, and an item of 258.
abbrev three_infos : List Info
three_infos = info_at 256 ∷ info_at 256 ∷ info_at 258 ∷ []

abbrev empty_heap : Heap
empty_heap = record { nodes = λ p. none; infos = λ i. none; fresh = 0 }

add_roots-lookup_example :
    (h' : Heap) × (root : Root) × (add_roots 3 new_rb_root three_infos empty_heap ≡ (ok root, h'))
    × ((id : ℕ)
        → (o : Option ℕ) × (lookup 3 root id h' ≡ (ok o, h'))
          × Answer h' id (has id (root_ids three_infos)) o)
add_roots-lookup_example =
    add_roots-lookup 3 three_infos empty_heap (omega arith)
      ((omega arith, (omega arith, tt)), ((omega arith, tt), (tt, tt)))

-- A tree of one subvolume that was received.
abbrev received : RootInfo
received = record (root_at 256) { received_uuid = 9 ∷ [] }

abbrev one_node : BuiltTree
one_node = record {
  root = some 0;
  heap = record {
    nodes = λ p. some (record { left = none; right = none; info = 1 });
    infos = λ i. some (record { rb_node = some 0; fields = received; item = some 4; ref = none });
    fresh = 2;
  };
  stransid = λ item. item + 3;
  size = 1;
}

find_parent-Matches_example :
    (i : ℕ) × Matches one_node.heap one_node.stransid (9 ∷ []) 7 i received
find_parent-Matches_example = find_parent-Matches one_node (9 ∷ []) 7 received found
  where
    found : find_parent one_node (9 ∷ []) 7 ≡ ok received
    found = unfold find_parent bytes_eq in refl
