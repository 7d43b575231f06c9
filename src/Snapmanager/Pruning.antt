-- ===== src/Snapmanager/Pruning.antt =====
-- What `PruneSnapshots` of pkg/cmd/snapmanager/snapmanager.go leaves alone.
use btrsync.Common.{
  ℕ, Bool, true, false, List, [], ◌∷◌, ◌++◌, All, All-append, All-split, ◌≡◌, refl, sym, ap, ◌∙◌,
  if◌then◌else◌,
}
use mathlib.Core.Path.{subst}
use btrsync.Common.Outcome.{Outcome, ok, err, panic, stuck}
use btrsync.Common.Int.{ℤ, lt_int, is_zero_int, lt_int-below, lt_int_irrefl}
use btrsync.Common.Action.{◌>>◌, lift}
use btrsync.Common.Keeps.{Holds, Gives, bind-Gives, lift-Gives, if-Gives}
use btrsync.Btrfs.RootInfo.{RootInfo}
use btrsync.Snapmanager.{sub, to_timed_chunks}
use btrsync.Snapmanager.Chunks.{flatten, to_timed_chunks-flatten}
use btrsync.Snapmanager.Manager.{
  Error, FileSystem, ManagerConfig, SnapManager, on_world, clock, older, younger, delete_snapshot,
  prune_old, is_past_minimum, is_long_term, long_term, delete_all, prune_chunks, set_snapshots,
  prune_within, prune_snapshots,
}

module _ (F : FileSystem) (cfg : ManagerConfig) (Known : RootInfo → Type 0)
    (P : F.World → Type 0) where
  -- A snapshot that is known, and that is older than the minimum retention at a reading of the clock.
  pub record Prunable (s : RootInfo) : Type 0 where
    pub known : Known s
    pub read_at : F.World
    pub old : older F cfg ((F.now read_at).0) s.creation_time cfg.snapshot_minimum_retention ≡ true

  -- Neither the clock nor the deletion of a prunable snapshot touches the property.
  pub record Untouched : Type 0 where
    pub by_clock : (w : F.World) → P w → P ((F.now w).1)
    pub by_delete :
        (s : RootInfo) (w : F.World)
        → Prunable s
        → P w
        → P ((F.delete_subvolume (F.join (cfg.snapshot_directory ∷ s.name ∷ [])) w).1)

  Inv : SnapManager F cfg → Type 0
  Inv m = P m.world × All Known m.snapshots

  -- A reading of the clock.
  Reading : ℕ → Type 0
  Reading t = (w : F.World) × (t ≡ (F.now w).0)

  Anything : Unit {0} → Type 0
  Anything u = Unit

  module _ (U : Untouched) where
    clock-Gives : Gives Inv Reading (clock F cfg)
    unfolding Inv clock Reading
    clock-Gives m (p, known) = ((U.by_clock m.world p, known), (m.world, refl))

    delete_snapshot-Gives :
        (s : RootInfo) → Prunable s → Gives Inv Anything (delete_snapshot F cfg s)
    unfolding Inv delete_snapshot on_world Anything
    delete_snapshot-Gives s old m (p, known) = (
      (U.by_delete s m.world old p, known),
      any ((F.delete_subvolume (F.join (cfg.snapshot_directory ∷ s.name ∷ [])) m.world).0),
    )
      where
        any : (r : Outcome Error (Unit {0})) → Holds Anything r
        any (ok u) = tt
        any (err e) = tt
        any panic = tt
        any stuck = tt

    -- Older than the retention is older than the minimum.
    prunable :
        (s : RootInfo) (t : ℕ) (d : ℤ)
        → lt_int d cfg.snapshot_minimum_retention ≡ false
        → Known s
        → Reading t
        → older F cfg t s.creation_time d ≡ true
        → Prunable s
    unfolding older Reading
    prunable s t d le known (w, is) old = record {
      known = known;
      read_at = w;
      old =
          ap (λ r. older F cfg r s.creation_time cfg.snapshot_minimum_retention) (sym is)
          ∙ lt_int-below cfg.snapshot_minimum_retention d (sub t s.creation_time) le old;
    }

    prune_old-Gives :
        (remaining ss : List RootInfo)
        → lt_int cfg.snapshot_retention cfg.snapshot_minimum_retention ≡ false
        → All Known remaining
        → All Known ss
        → Gives Inv (All Known) (prune_old F cfg remaining ss)
    unfolding prune_old
    prune_old-Gives remaining [] le kept known = lift-Gives Error Inv (All Known) remaining kept
    prune_old-Gives remaining (s ∷ ss) le kept (is, known) =
        bind-Gives Inv Reading (All Known) (clock F cfg) _ clock-Gives λ t reading.
          if-Gives Inv (All Known) (older F cfg t s.creation_time cfg.snapshot_retention) _ _
            (λ old.
              bind-Gives Inv Anything (All Known) (delete_snapshot F cfg s) _
                (delete_snapshot-Gives s (prunable s t cfg.snapshot_retention le is reading old))
                λ u any. prune_old-Gives remaining ss le kept known)
            (λ recent.
              prune_old-Gives (remaining ++ s ∷ []) ss le
                (All-append Known remaining (s ∷ []) kept (is, tt)) known)

    -- What a positive test of a snapshot tells.
    Tested : RootInfo → Bool → Type 0
    Tested s b = b ≡ true → Prunable s

    is_past_minimum-Gives :
        (s : RootInfo) → Known s → Gives Inv (Tested s) (is_past_minimum F cfg s)
    unfolding is_past_minimum Tested
    is_past_minimum-Gives s known =
        bind-Gives Inv Reading (Tested s) (clock F cfg)
          (λ t. lift (ok (older F cfg t s.creation_time cfg.snapshot_minimum_retention)))
          clock-Gives
          λ t reading.
            lift-Gives Error Inv (Tested s)
              (older F cfg t s.creation_time cfg.snapshot_minimum_retention)
              (prunable s t cfg.snapshot_minimum_retention
                (lt_int_irrefl cfg.snapshot_minimum_retention) known reading)

    is_long_term-Gives : (s : RootInfo) → Known s → Gives Inv (Tested s) (is_long_term F cfg s)
    unfolding is_long_term Tested
    is_long_term-Gives s known =
        bind-Gives Inv Reading (Tested s) (clock F cfg)
          (λ t.
            if younger F cfg t s.creation_time cfg.snapshot_retention
            then is_past_minimum F cfg s
            else lift (ok false))
          clock-Gives
          λ t reading.
            if-Gives Inv (Tested s) (younger F cfg t s.creation_time cfg.snapshot_retention)
              (is_past_minimum F cfg s) (lift (ok false)) (λ young. is_past_minimum-Gives s known)
              (λ old. lift-Gives Error Inv (Tested s) false (λ e. cc))

    long_term-Gives :
        (kept ss : List RootInfo)
        → All Prunable kept
        → All Known ss
        → Gives Inv (All Prunable) (long_term F cfg kept ss)
    unfolding long_term Tested
    long_term-Gives kept [] h known = lift-Gives Error Inv (All Prunable) kept h
    long_term-Gives kept (s ∷ ss) h (is, known) =
        bind-Gives Inv (Tested s) (All Prunable) (is_long_term F cfg s) _ (is_long_term-Gives s is)
          λ b old. long_term-Gives (if b then kept ++ s ∷ [] else kept) ss (with_it b old) known
      where
        with_it :
            (b : Bool) → (b ≡ true → Prunable s) → All Prunable (if b then kept ++ s ∷ [] else kept)
        with_it true old = All-append Prunable kept (s ∷ []) h (old refl, tt)
        with_it false old = h

    delete_all-Gives :
        (ss : List RootInfo) → All Prunable ss → Gives Inv Anything (delete_all F cfg ss)
    unfolding delete_all Anything
    delete_all-Gives [] h = lift-Gives Error Inv Anything tt tt
    delete_all-Gives (s ∷ ss) (old, h) =
        bind-Gives Inv Anything Anything (delete_snapshot F cfg s) _ (delete_snapshot-Gives s old)
          λ u any. delete_all-Gives ss h

    prune_chunks-Gives :
        (chunks : List (List RootInfo))
        → All Prunable (flatten chunks)
        → Gives Inv Anything (prune_chunks F cfg chunks)
    unfolding prune_chunks Anything
    prune_chunks-Gives [] h = lift-Gives Error Inv Anything tt tt
    prune_chunks-Gives ([] ∷ chunks) h = prune_chunks-Gives chunks h
    prune_chunks-Gives ((s ∷ ss) ∷ chunks) (old, h) =
        let (olds, rest) = All-split Prunable ss (flatten chunks) h in
        bind-Gives Inv Anything Anything (delete_all F cfg ss) _ (delete_all-Gives ss olds)
          λ u any. prune_chunks-Gives chunks rest

    set_snapshots-Gives :
        (ss : List RootInfo) → All Known ss → Gives Inv Anything (set_snapshots F cfg ss)
    unfolding set_snapshots Inv Anything
    set_snapshots-Gives ss known m (p, h) = ((p, known), tt)

    prune_within-Gives :
        (sorted : (Q : RootInfo → Type 0) (xs : List RootInfo)
          → All Q xs
          → All Q (F.sort_ascending xs))
        (remaining : List RootInfo)
        → All Known remaining
        → Gives Inv Anything (prune_within F cfg remaining)
    unfolding prune_within Anything
    prune_within-Gives sorted remaining known =
        if-Gives Inv Anything (is_zero_int cfg.snapshot_retention_interval) (lift (ok tt)) _
          (λ e. lift-Gives Error Inv Anything tt tt)
          (λ e.
            bind-Gives Inv (All Prunable) Anything (long_term F cfg [] remaining)
              (λ snapshots.
                prune_chunks F cfg
                  (to_timed_chunks F.sort_ascending snapshots cfg.snapshot_retention_interval))
              (long_term-Gives [] remaining tt known)
              λ snapshots old.
                prune_chunks-Gives
                  (to_timed_chunks F.sort_ascending snapshots cfg.snapshot_retention_interval)
                  (chunked snapshots old))
      where
        chunked :
            (xs : List RootInfo)
            → All Prunable xs
            → All Prunable
                (flatten (to_timed_chunks F.sort_ascending xs cfg.snapshot_retention_interval))
        chunked [] h = tt
        chunked (x ∷ xs) h =
            subst (All Prunable)
              (sym (to_timed_chunks-flatten F.sort_ascending x xs cfg.snapshot_retention_interval))
              (sorted Prunable (x ∷ xs) h)

    -- PruneSnapshots, whether it ends with an error or not, deletes only snapshots of its list
    -- that a reading of the clock finds older than the minimum retention: what holds of the world
    -- and is kept by the clock and by such deletions still holds. The minimum retention is at most
    -- the retention, and the sort keeps what holds of all elements.
    pub prune_snapshots-Untouched :
        (sorted : (Q : RootInfo → Type 0) (xs : List RootInfo)
          → All Q xs
          → All Q (F.sort_ascending xs))
        (m : SnapManager F cfg)
        → lt_int cfg.snapshot_retention cfg.snapshot_minimum_retention ≡ false
        → All Known m.snapshots
        → P m.world
        → P ((prune_snapshots F cfg m).1.world)
    unfolding prune_snapshots Inv Anything
    prune_snapshots-Untouched sorted m le known p =
        (if-Gives Inv Anything (is_zero_int cfg.snapshot_retention) (lift (ok tt)) _
          (λ e. lift-Gives Error Inv Anything tt tt)
          (λ e.
            bind-Gives Inv (All Known) Anything (prune_old F cfg [] m.snapshots)
              (λ remaining. set_snapshots F cfg remaining >> prune_within F cfg remaining)
              (prune_old-Gives [] m.snapshots le tt known)
              λ remaining kept.
                bind-Gives Inv Anything Anything (set_snapshots F cfg remaining)
                  (λ u. prune_within F cfg remaining) (set_snapshots-Gives remaining kept)
                  λ u any. prune_within-Gives sorted remaining kept)
          m (p, known)).0.0
