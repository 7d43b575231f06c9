-- ===== src/Receivers/Local/Parent.antt =====
-- The subvolume that `Snapshot` of pkg/receive/receivers/local/local.go takes for the parent.
use btrsync.Common.{
  ℕ, false, Option, none, some, ◌≡◌, refl, ap, sym, ◌∙◌, ◌==◌, ◌&&◌, ◌||◌, Bool-cases, Option-cases,
  inl, inr, arith,
}
use mathlib.Core.Path.{Path, subst}
use btrsync.Common.Bytes.{bytes_eq, bytes_eq_iff}
use btrsync.Common.Outcome.{Outcome, ok, err, panic, stuck}
use btrsync.Btrfs.RootInfo.{RootInfo}
use btrsync.Btrfs.RootTree.{Heap, Info, info_at, deref}
use btrsync.Btrfs.RootTree.Iterate.{IterError}
use btrsync.Common.Keeps.{Keeps}
use btrsync.Btrfs.RootTree.Keeps.{post_order_iterate-Keeps}
use btrsync.Sendstream.Attrs.Values.{Uuid}
use btrsync.Receive.Receiver.{Error}
use btrsync.Receivers.Local.{
  BuiltTree, Searching, heap_of, is_nil_uuid, match_parent, parent_visit, parent_info, found_info,
  find_parent,
}

-- An info that was received under a UUID, and whose item has a transaction number.
abbrev pub Matches : Heap → (ℕ → ℕ) → Uuid → ℕ → ℕ → RootInfo → Type 0
Matches h stransid clone_uuid clone_ctransid i fields =
    (info : Info) × (item : ℕ) × (h.infos i ≡ some info)
    × (info.fields ≡ fields)
    × (fields.deleted ≡ false)
    × (fields.received_uuid ≡ clone_uuid)
    × (info.item ≡ some item)
    × (stransid item ≡ clone_ctransid)

module _ (h : Heap) (stransid : ℕ → ℕ) (clone_uuid : Uuid) (clone_ctransid : ℕ) where
  ParentOf : Option ℕ → Type 0
  ParentOf none = Unit
  ParentOf (some i) = (fields : RootInfo) × Matches h stransid clone_uuid clone_ctransid i fields

  -- The heap is as it was, and the parent that was found matches.
  Inv : Searching → Type 0
  Inv s = (s.heap ≡ h) × ParentOf s.parent

  match_parent-Keeps :
      (i : ℕ) (info : Info) (s : Searching)
      → h.infos i ≡ some info
      → Inv s
      → Inv ((match_parent stransid clone_uuid clone_ctransid i info s).1)
  unfolding match_parent Inv ParentOf deref
  match_parent-Keeps i info s there (same, found) =
      elim (Bool-cases (info.fields.deleted || is_nil_uuid info.fields.received_uuid)) [
        | inl e ↦ rw (match_parent, e) (same, found)
        | inr e ↦ elim (Option-cases info.item) [
          | inl no_item ↦ rw (match_parent, e, no_item) (same, found)
          | inr (item, is) ↦
              elim (Bool-cases (
                bytes_eq info.fields.received_uuid clone_uuid && stransid item == clone_ctransid)) [
                  | inl both ↦
                      rw (match_parent, e, is, both)
                        (
                          same,
                          (
                            info.fields,
                            (
                              info,
                              item,
                              there,
                              refl,
                              ground (arith, e),
                              (bytes_eq_iff info.fields.received_uuid clone_uuid).0
                                  (ground (arith, both)),
                              is,
                              ground (arith, both),
                            ),
                          ),
                        )
                  | inr other ↦ rw (match_parent, e, is, other) (same, found)
                ]
        ]
      ]

  parent_visit-Keeps :
      (i : ℕ) (e : Option IterError)
      → Keeps Inv (parent_visit stransid clone_uuid clone_ctransid i e)
  unfolding parent_visit info_at deref Inv
  parent_visit-Keeps i e s (same, found) = elim (Option-cases (s.heap.infos i)) [
    | inl missing ↦ rw (parent_visit, missing) (same, found)
    | inr (info, there) ↦
        rw (parent_visit, there)
          (match_parent-Keeps i info s (ap (λ x. x.infos i) (sym same) ∙ there) (same, found))
  ]

  found_info-Matches :
      (hp : Heap) (o : Option ℕ) (fields : RootInfo)
      → hp ≡ h
      → ParentOf o
      → found_info hp o ≡ ok fields
      → (i : ℕ) × Matches h stransid clone_uuid clone_ctransid i fields
  unfolding found_info ParentOf
  found_info-Matches hp none fields same found e = cc
  found_info-Matches hp (some i) fields same
        (matched, (info, item, there, is_fields, live, received, is, number)) e =
      (
        i,
        subst (Matches h stransid clone_uuid clone_ctransid i)
            (ok_inj (sym (rw (found_info, ap (λ x. x.infos i) same ∙ there) (ap ok is_fields)) ∙ e))
            (info, item, there, is_fields, live, received, is, number),
      )
    where
      ok_inj : {a b : RootInfo} → Path (Outcome Error RootInfo) (ok a) (ok b) → a ≡ b
      ok_inj p = cc

  parent_info-Matches :
      (p : Outcome (Unit {0}) (Option IterError) × Searching) (fields : RootInfo)
      → Inv p.1
      → parent_info p ≡ ok fields
      → (i : ℕ) × Matches h stransid clone_uuid clone_ctransid i fields
  unfolding parent_info Inv
  parent_info-Matches (ok x, s) fields (same, found) e =
      found_info-Matches s.heap s.parent fields same found e
  parent_info-Matches (err x, s) fields inv e = cc
  parent_info-Matches (panic, s) fields inv e = cc
  parent_info-Matches (stuck, s) fields inv e = cc

-- The subvolume that the local receiver takes for the parent of a snapshot is not deleted, was
-- received under the UUID that the SNAPSHOT command asks for, and its item has the transaction
-- number of that command, on any tree that BuildRBTree may give.
pub find_parent-Matches :
    (tree : BuiltTree) (clone_uuid : Uuid) (clone_ctransid : ℕ) (fields : RootInfo)
    → find_parent tree clone_uuid clone_ctransid ≡ ok fields
    → (i : ℕ) × Matches tree.heap tree.stransid clone_uuid clone_ctransid i fields
unfolding find_parent Inv ParentOf
find_parent-Matches tree clone_uuid clone_ctransid fields found =
    parent_info-Matches tree.heap tree.stransid clone_uuid clone_ctransid _ fields
      (post_order_iterate-Keeps heap_of (Inv tree.heap tree.stransid clone_uuid clone_ctransid)
        tree.size tree.root (parent_visit tree.stransid clone_uuid clone_ctransid)
        (parent_visit-Keeps tree.heap tree.stransid clone_uuid clone_ctransid)
        (record { heap = tree.heap; parent = none }) (refl, tt))
      found
