-- ===== src/Btrfs/RootTree/Spine.antt =====
-- Trees of pkg/btrfs/btrfs_rb_tree.go that go to the right only, as they come out of numbers in
-- ascending order.
use btrsync.Common.{
  ℕ, zero, suc, ◌<◌, ◌≤◌, Option, none, some, List, [], ◌∷◌, ◌++◌, length, All, All-map, ◌≡◌, ◌≢◌,
  refl, ap, sym, ◌∙◌, ◌==◌, ltb, false, Bool-cases, inl, inr, if◌then◌else◌, arith,
}
use btrsync.Common.Outcome.{ok}
use btrsync.Common.Action.{lift}
use btrsync.Btrfs.RootTree.{
  Root, Heap, Node, Info, T, store, node_at, root_id_of, info_at, deref, set_node, insert_right,
  insert_root, lookup_root,
}

-- A node of the spine: its pointer, that of its info, and the number of that.
pub record Entry : Type 0 where
  pub at : ℕ
  pub info : ℕ
  pub id : ℕ

abbrev pub head_of : List Entry → Root
head_of [] = none
head_of (e ∷ es) = some e.at

abbrev pub IsInfo : (ℕ → Option Info) → ℕ → ℕ → Type 0
IsInfo infos i id = (info : Info) × (infos i ≡ some info) × (info.fields.root_id ≡ id)

-- The heap holds the spine.
abbrev pub Cells : (ℕ → Option Node) → (ℕ → Option Info) → List Entry → Type 0
Cells nodes infos [] = Unit
Cells nodes infos (e ∷ es) =
    (nodes e.at ≡ some (record { left = none; right = head_of es; info = e.info }))
    × (IsInfo infos e.info e.id × Cells nodes infos es)

-- Pointers and numbers go up.
abbrev pub Below : Entry → Entry → Type 0
Below e e' = (e.at < e'.at) × (e.id < e'.id)

abbrev pub Ascending : List Entry → Type 0
Ascending [] = Unit
Ascending (e ∷ es) = All (Below e) es × Ascending es

unfoldable pub find : ℕ → List Entry → Option ℕ
find id [] = none
find id (e ∷ es) = if e.id == id then some e.info else find id es

find-above : (id : ℕ) (es : List Entry) → All (λ e. id < e.id) es → find id es ≡ none
unfolding find
find-above id [] h = refl
find-above id (e ∷ es) (lt, h) = ground (arith, find-above id es h, lt)

le→ltb_false : (a b : ℕ) → b ≤ a → ltb a b ≡ false
le→ltb_false a b h = ground arith

-- The three ways to go on from a node.
three_ways :
    (k id i : ℕ) (o : Option ℕ) (left right : T (Option ℕ)) (h : Heap)
    → (id < k → left h ≡ (ok o, h))
    → right h ≡ (ok o, h)
    → (if k == id then lift (ok (some i)) else if ltb id k then left else right) h
      ≡ (ok (if k == id then some i else o), h)
three_ways k id i o left right h l r = elim (Bool-cases (k == id)) [
  | inl e ↦ rw e refl
  | inr e ↦
      rw e (elim (Bool-cases (ltb id k)) [
        | inl lt ↦ rw lt (l (ground (arith, lt)))
        | inr ge ↦ rw ge r
      ])
]

pub lookup_root-Cells :
    (fuel id : ℕ) (e : Entry) (es : List Entry) (h : Heap)
    → length es < fuel
    → Cells h.nodes h.infos (e ∷ es)
    → Ascending (e ∷ es)
    → lookup_root fuel e.at id h ≡ (ok (find id (e ∷ es)), h)
unfolding lookup_root find node_at root_id_of info_at deref
lookup_root-Cells zero id e es h enough cells asc = ground (arith, enough)
lookup_root-Cells (suc fuel) id e [] h enough (node, ((info, there, same), cells)) (above, asc) =
    rw (node, there, same) (three_ways e.id id e.info none _ _ h (λ lt. refl) refl)
lookup_root-Cells (suc fuel) id e (e' ∷ es) h enough (node, ((info, there, same), cells))
      (above, asc) =
    rw (node, there, same)
      (three_ways e.id id e.info (find id (e' ∷ es)) _ _ h
        (λ lt.
          ap (λ o. (ok o, h))
            (sym (
              find-above id (e' ∷ es) (
                All-map (Below e) (λ x. id < x.id) (λ x b. omega (arith, lt, b.1)) (e' ∷ es)
                  above))))
        (lookup_root-Cells fuel id e' es h (omega (arith, enough)) cells asc))

-- What an insertion of a node behind the spine writes.
abbrev pub linked : ℕ → Entry → List Entry → (ℕ → Option Node) → ℕ → Option Node
linked q e [] nodes = store e.at (record { left = none; right = some q; info = e.info }) nodes
linked q e (e' ∷ es) nodes = linked q e' es nodes

pub insert_root-Cells :
    (fuel q id : ℕ) (e : Entry) (es : List Entry) (h : Heap)
    → length es < fuel
    → Cells h.nodes h.infos (e ∷ es)
    → All (λ x. x.id ≤ id) (e ∷ es)
    → insert_root fuel e.at (some q) id h ≡ (ok tt, record h { nodes = linked q e es h.nodes })
unfolding insert_root insert_right node_at root_id_of info_at set_node deref
insert_root-Cells zero q id e es h enough cells above = ground (arith, enough)
insert_root-Cells (suc fuel) q id e [] h enough (node, ((info, there, same), cells)) (le, above) =
    rw (node, there, same, le→ltb_false id e.id le, node) refl
insert_root-Cells (suc fuel) q id e (e' ∷ es) h enough (node, ((info, there, same), cells))
      (le, above) =
    rw (node, there, same, le→ltb_false id e.id le, node)
      (insert_root-Cells fuel q id e' es h (omega (arith, enough)) cells above)

pub store-same {ℓ} : {A : Type ℓ} (p : ℕ) (a : A) (f : ℕ → Option A) → store p a f p ≡ some a
store-same p a f = ground arith

pub store-other {ℓ} :
    {A : Type ℓ} (p q : ℕ) (a : A) (f : ℕ → Option A) → p ≢ q → store p a f q ≡ f q
store-other p q a f ne = ground (arith, ne)

-- A node in front of the entries stays as it is.
linked-front :
    (q p : ℕ) (e : Entry) (es : List Entry) (nodes : ℕ → Option Node)
    → All (λ x. p < x.at) (e ∷ es)
    → linked q e es nodes p ≡ nodes p
linked-front q p e [] nodes (lt, above) = store-other e.at p _ nodes (omega (arith, lt))
linked-front q p e (e' ∷ es) nodes (lt, above) = linked-front q p e' es nodes above

pub linked-behind :
    (q p : ℕ) (e : Entry) (es : List Entry) (nodes : ℕ → Option Node)
    → All (λ x. x.at < p) (e ∷ es)
    → linked q e es nodes p ≡ nodes p
linked-behind q p e [] nodes (lt, above) = store-other e.at p _ nodes (omega (arith, lt))
linked-behind q p e (e' ∷ es) nodes (lt, above) = linked-behind q p e' es nodes above

pub Cells-linked :
    (new e : Entry) (es : List Entry) (nodes : ℕ → Option Node) (infos : ℕ → Option Info)
    → Cells nodes infos (e ∷ es)
    → Ascending (e ∷ es)
    → All (λ x. x.at < new.at) (e ∷ es)
    → nodes new.at ≡ some (record { left = none; right = none; info = new.info })
    → IsInfo infos new.info new.id
    → Cells (linked new.at e es nodes) infos (e ∷ es ++ new ∷ [])
Cells-linked new e [] nodes infos (node, (info, cells)) (above, asc) (lt, below) there is_new = (
  store-same e.at _ nodes,
  (info, (store-other e.at new.at _ nodes (omega (arith, lt)) ∙ there, (is_new, tt))),
)
Cells-linked new e (e' ∷ es) nodes infos (node, (info, cells)) (above, asc) (lt, below) there
      is_new =
    (
      linked-front new.at e.at e' es nodes
            (All-map (Below e) (λ x. e.at < x.at) (λ x b. b.0) (e' ∷ es) above)
          ∙ node,
      (info, Cells-linked new e' es nodes infos cells asc below there is_new),
    )
