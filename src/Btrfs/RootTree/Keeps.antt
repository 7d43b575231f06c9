-- ===== src/Btrfs/RootTree/Keeps.antt =====
-- What holds of the state of an iteration of pkg/btrfs/btrfs_rb_tree.go, if the callback keeps it.
use btrsync.Common.{ℕ, zero, suc, Option, none, some, Bool-cases, inl, inr}
use btrsync.Common.Keeps.{Keeps, bind-Keeps}
use btrsync.Common.Action.{◌>>=◌}
use btrsync.Btrfs.RootTree.{Root, Heap}
use btrsync.Btrfs.RootTree.Iterate.{
  IterError, is_stop, I, Callback, read_node, visit_child, unless_stopped, visit_node,
  right_then_node, post_order, post_order_iterate,
}

module _ {S : Type 0} (heap : S → Heap) (Inv : S → Type 0) where
  read_node-Keeps : (p : ℕ) → Keeps Inv (read_node heap p)
  unfolding read_node
  read_node-Keeps p s h = h

  visit_child-Keeps :
      (go : Callback heap) (p : Option ℕ) (last : Option IterError)
      → ((i : ℕ) (e : Option IterError) → Keeps Inv (go i e))
      → Keeps Inv (visit_child heap go p last)
  unfolding visit_child
  visit_child-Keeps go none last h s inv = inv
  visit_child-Keeps go (some p) last h s inv = h p last s inv

  unless_stopped-Keeps :
      (k : Option IterError → I heap (Option IterError)) (last : Option IterError)
      → ((e : Option IterError) → Keeps Inv (k e))
      → Keeps Inv (unless_stopped heap k last)
  unfolding unless_stopped
  unless_stopped-Keeps k last h s inv = elim (Bool-cases (is_stop last)) [
    | inl e ↦ rw e inv
    | inr e ↦ rw e (h last s inv)
  ]

  -- A callback keeps the invariant at each node and last error.
  abbrev pub AllKeep : Callback heap → Type 0
  AllKeep f = (i : ℕ) (e : Option IterError) → Keeps Inv (f i e)

  visit_node-Keeps : (f : Callback heap) → AllKeep f → AllKeep (visit_node heap f)
  unfolding visit_node
  visit_node-Keeps f h p last =
      bind-Keeps Inv (read_node heap p) (λ n. f n.info last) (read_node-Keeps p) λ n. h n.info last

  right_then_node-Keeps :
      (go f : Callback heap) → AllKeep go → AllKeep f → AllKeep (right_then_node heap go f)
  unfolding right_then_node
  right_then_node-Keeps go f hgo h p last =
      bind-Keeps Inv (read_node heap p)
        (λ n. visit_child heap go n.right last >>= unless_stopped heap (visit_node heap f p))
        (read_node-Keeps p)
        λ n.
          bind-Keeps Inv (visit_child heap go n.right last)
            (unless_stopped heap (visit_node heap f p)) (visit_child-Keeps go n.right last hgo)
            λ e. unless_stopped-Keeps (visit_node heap f p) e (visit_node-Keeps f h p)

  post_order-Keeps : (fuel : ℕ) (f : Callback heap) → AllKeep f → AllKeep (post_order heap fuel f)
  unfolding post_order
  post_order-Keeps zero f h p last = λ s inv. inv
  post_order-Keeps (suc fuel) f h p last =
      let go = post_order heap fuel f in
      let right = right_then_node heap go f p in
      bind-Keeps Inv (read_node heap p)
        (λ n. visit_child heap go n.left last >>= unless_stopped heap right) (read_node-Keeps p)
        λ n.
          bind-Keeps Inv (visit_child heap go n.left last) (unless_stopped heap right)
            (visit_child-Keeps go n.left last (post_order-Keeps fuel f h))
            λ e.
              unless_stopped-Keeps right e
                (right_then_node-Keeps go f (post_order-Keeps fuel f h) h p)

  pub post_order_iterate-Keeps :
      (fuel : ℕ) (root : Root) (f : Callback heap)
      → ((i : ℕ) (e : Option IterError) → Keeps Inv (f i e))
      → Keeps Inv (post_order_iterate heap fuel root f)
  unfolding post_order_iterate
  post_order_iterate-Keeps fuel none f h = λ s inv. inv
  post_order_iterate-Keeps fuel (some p) f h = post_order-Keeps fuel f h p none
