-- ===== src/Btrfs/RootTree/Iterate.antt =====
-- The iterations of pkg/btrfs/btrfs_rb_tree.go.
use btrsync.Common.{ℕ, zero, suc, Option, none, some, Bool, true, false, if◌then◌else◌}
use btrsync.Common.Outcome.{ok, stuck}
use btrsync.Common.Action.{Action, ◌>>=◌, lift}
use btrsync.Btrfs.RootTree.{Root, Heap, Node, node_at, or_child}

-- The errors of a callback, of which `ErrStopTreeIteration` ends the iteration.
pub data IterError : Type 0 where
  stop_tree_iteration other_error : IterError

-- `lastErr != nil && errors.Is(lastErr, ErrStopTreeIteration)`
unfoldable pub is_stop : Option IterError → Bool
is_stop none = false
is_stop (some stop_tree_iteration) = true
is_stop (some other_error) = false

-- A callback changes a state of which the heap is a part: it gets an info and the last error.
module _ {S : Type 0} (heap : S → Heap) where
  abbrev pub I : Type 0 → Type 0
  I = Action (Unit {0}) S

  abbrev pub Callback : Type 0
  Callback = ℕ → Option IterError → I (Option IterError)

  unfoldable pub read_node : ℕ → I Node
  unfolding node_at
  read_node p s = ((node_at p (heap s)).0, s)

  -- A child is visited if it is not nil.
  unfoldable pub visit_child : Callback → Option ℕ → Option IterError → I (Option IterError)
  visit_child go none last = lift (ok last)
  visit_child go (some p) last = go p last

  -- What follows, unless the iteration was stopped.
  unfoldable pub unless_stopped :
      (Option IterError → I (Option IterError)) → Option IterError → I (Option IterError)
  unfolding is_stop
  unless_stopped k last = if is_stop last then lift (ok last) else k last

  unfoldable pub pre_order : ℕ → Callback → Callback
  unfolding read_node visit_child unless_stopped
  pre_order zero f p last = lift stuck
  pre_order (suc fuel) f p last = do
    n ← read_node p
    e ← f n.info last
    unless_stopped
        (λ e. (do
          n' ← read_node p
          e' ← visit_child (pre_order fuel f) n'.left e
          unless_stopped (λ e'. (do n'' ← read_node p; visit_child (pre_order fuel f) n''.right e'))
              e'))
        e

  -- The steps of `postOrderIterate` behind the children.
  unfoldable pub visit_node : Callback → Callback
  unfolding read_node
  visit_node f p last = do n ← read_node p; f n.info last

  unfoldable pub right_then_node : Callback → Callback → Callback
  unfolding read_node visit_child unless_stopped visit_node
  right_then_node go f p last = do
    n ← read_node p
    e ← visit_child go n.right last
    unless_stopped (visit_node f p) e

  unfoldable pub post_order : ℕ → Callback → Callback
  unfolding read_node visit_child unless_stopped right_then_node
  post_order zero f p last = lift stuck
  post_order (suc fuel) f p last = do
    n ← read_node p
    e ← visit_child (post_order fuel f) n.left last
    unless_stopped (right_then_node (post_order fuel f) f p) e

  unfoldable pub in_order : ℕ → Callback → Callback
  unfolding read_node visit_child unless_stopped
  in_order zero f p last = lift stuck
  in_order (suc fuel) f p last = do
    n ← read_node p
    e ← visit_child (in_order fuel f) n.left last
    unless_stopped
        (λ e. (do
          n' ← read_node p
          e' ← f n'.info e
          unless_stopped (λ e'. (do n'' ← read_node p; visit_child (in_order fuel f) n''.right e'))
              e'))
        e

  -- `PreOrderIterate`, `PostOrderIterate` and `InOrderIterate`
  unfoldable pub pre_order_iterate : ℕ → Root → Callback → I (Option IterError)
  unfolding pre_order
  pre_order_iterate fuel root f = or_child root (lift (ok none)) (λ p. pre_order fuel f p none)

  unfoldable pub post_order_iterate : ℕ → Root → Callback → I (Option IterError)
  unfolding post_order
  post_order_iterate fuel root f = or_child root (lift (ok none)) (λ p. post_order fuel f p none)

  unfoldable pub in_order_iterate : ℕ → Root → Callback → I (Option IterError)
  unfolding in_order
  in_order_iterate fuel root f = or_child root (lift (ok none)) (λ p. in_order fuel f p none)
