-- ===== src/Snapmanager/Chunks.antt =====
-- The chunks of pkg/cmd/snapmanager/snapmanager.go: what is in them, and how far apart.
use btrsync.Common.{
  ℕ, ◌+◌, ◌-◌, ◌^◌, ◌≤◌, ◌<◌, ◌≡◌, refl, ap, sym, ◌∙◌, arith, false, List, [], ◌∷◌, ◌++◌,
  append-nil, append_assoc, All, All-append, Bool-cases, inl, inr,
}
use btrsync.Common.Int.{ℤ, pos, lt_int}
use btrsync.Btrfs.RootInfo.{RootInfo}
use btrsync.Snapmanager.{sub, Chunking, start_time, chunk_step, chunk_loop, to_timed_chunks}

abbrev pub flatten : List (List RootInfo) → List RootInfo
flatten [] = []
flatten (c ∷ cs) = c ++ flatten cs

flatten-append :
    (cs : List (List RootInfo)) (c : List RootInfo) → flatten (cs ++ (c ∷ [])) ≡ flatten cs ++ c
flatten-append [] c = append-nil c
flatten-append (d ∷ cs) c = rw (flatten-append cs c) (sym (append_assoc d (flatten cs) c))

chunk_step-flatten :
    (interval : ℤ) (snap : RootInfo) (c : Chunking)
    → flatten (chunk_step interval snap c).chunks ++ (chunk_step interval snap c).chunk
      ≡ (flatten c.chunks ++ c.chunk) ++ (snap ∷ [])
unfolding chunk_step
chunk_step-flatten interval snap c =
    elim (Bool-cases (lt_int interval (sub snap.creation_time (start_time snap c.last_time)))) [
      | inl e ↦ rw (e, flatten-append c.chunks c.chunk)
      | inr e ↦ rw e (sym (append_assoc (flatten c.chunks) c.chunk (snap ∷ [])))
    ]

chunk_loop-flatten :
    (interval : ℤ) (snaps : List RootInfo) (c : Chunking)
    → flatten (chunk_loop interval snaps c) ≡ (flatten c.chunks ++ c.chunk) ++ snaps
unfolding chunk_loop
chunk_loop-flatten interval [] c = flatten-append c.chunks c.chunk ∙ sym (append-nil _)
chunk_loop-flatten interval (snap ∷ snaps) c =
    chunk_loop-flatten interval snaps (chunk_step interval snap c)
    ∙ ap (λ l. l ++ snaps) (chunk_step-flatten interval snap c)
    ∙ append_assoc (flatten c.chunks ++ c.chunk) (snap ∷ []) snaps

-- The chunks of toTimedChunks, one after the other, are the sorted snapshots, if there are any:
-- none is lost, doubled or moved.
pub to_timed_chunks-flatten :
    (sort_ascending : List RootInfo → List RootInfo) (s : RootInfo) (ss : List RootInfo)
    (interval : ℤ)
    → flatten (to_timed_chunks sort_ascending (s ∷ ss) interval) ≡ sort_ascending (s ∷ ss)
unfolding to_timed_chunks
to_timed_chunks-flatten sort_ascending s ss interval =
    chunk_loop-flatten interval (sort_ascending (s ∷ ss))
      (record { chunks = []; chunk = []; last_time = 0 })

-- A chunk has a first snapshot, and the others are made at most an interval after it.
abbrev pub Within : ℕ → List RootInfo → Type 0
Within interval [] = ⊥
Within interval (first ∷ rest) =
    All (λ (s : RootInfo). s.creation_time ≤ first.creation_time + interval) rest

abbrev pub HasTime : RootInfo → Type 0
HasTime s = 0 < s.creation_time

abbrev Starts : List RootInfo → ℕ → Type 0
Starts [] last = ⊥
Starts (first ∷ rest) last = (last ≡ first.creation_time) × (0 < last)

sub-Within :
    (interval t u : ℕ)
    → interval < 2 ^ 63 - 1
    → lt_int (pos interval) (sub t u) ≡ false
    → t ≤ u + interval
unfolding sub lt_int
sub-Within interval t u fits e = ground arith

-- The chunk that is being filled: its first snapshot is at the time that is kept.
abbrev Filled : ℕ → Chunking → Type 0
Filled interval c =
    Within interval c.chunk × Starts c.chunk c.last_time × All (Within interval) c.chunks

chunk_step-first :
    (interval : ℕ) (snap : RootInfo)
    → HasTime snap
    → chunk_step (pos interval) snap (record { chunks = []; chunk = []; last_time = 0 })
      ≡ record { chunks = []; chunk = snap ∷ []; last_time = snap.creation_time }
unfolding chunk_step start_time sub lt_int
chunk_step-first interval snap h =
    let e : lt_int (pos interval) (sub snap.creation_time snap.creation_time) ≡ false =
      ground arith in
    rw e

chunk_step-Filled :
    (interval : ℕ) (snap : RootInfo) (c : Chunking)
    → interval < 2 ^ 63 - 1
    → HasTime snap
    → Filled interval c
    → Filled interval (chunk_step (pos interval) snap c)
unfolding chunk_step start_time
chunk_step-Filled interval snap c fits h f = step c.chunks c.chunk c.last_time f
  where
    step :
        (chunks : List (List RootInfo)) (chunk : List RootInfo) (last : ℕ)
        → Filled interval (record { chunks = chunks; chunk = chunk; last_time = last })
        → Filled interval (
            chunk_step
              (pos interval)
              snap
              (record { chunks = chunks; chunk = chunk; last_time = last }))
    step chunks [] last (w, t, ws) = absurd w
    step chunks (first ∷ rest) last (w, (t, p), ws) =
        let kept : start_time snap last ≡ first.creation_time = ground arith in
        elim (Bool-cases (lt_int (pos interval) (sub snap.creation_time first.creation_time))) [
          | inl e ↦ rw (kept, e) (tt, (refl, h), All-append (Within interval) chunks _ ws (w, tt))
          | inr e ↦
              rw (kept, e)
                (
                  All-append _ rest (snap ∷ []) w (sub-Within interval _ _ fits e, tt),
                  (refl, omega arith),
                  ws,
                )
        ]

chunk_loop-Within :
    (interval : ℕ) (snaps : List RootInfo) (c : Chunking)
    → interval < 2 ^ 63 - 1
    → All HasTime snaps
    → Filled interval c
    → All (Within interval) (chunk_loop (pos interval) snaps c)
unfolding chunk_loop
chunk_loop-Within interval [] c fits h (w, t, ws) =
    All-append (Within interval) c.chunks _ ws (w, tt)
chunk_loop-Within interval (snap ∷ snaps) c fits (hs, h) f =
    chunk_loop-Within interval snaps (chunk_step (pos interval) snap c) fits h
      (chunk_step-Filled interval snap c fits hs f)

-- Each chunk of toTimedChunks has a first snapshot, and the others, which are the ones deleted,
-- are made at most an interval after it, if the sorted snapshots are not none, each has a creation
-- time, and the interval is not negative and below the greatest duration.
pub to_timed_chunks-Within :
    (sort_ascending : List RootInfo → List RootInfo) (s : RootInfo) (ss : List RootInfo)
    (interval : ℕ) (x : RootInfo) (xs : List RootInfo)
    → interval < 2 ^ 63 - 1
    → sort_ascending (s ∷ ss) ≡ x ∷ xs
    → All HasTime (x ∷ xs)
    → All (Within interval) (to_timed_chunks sort_ascending (s ∷ ss) (pos interval))
unfolding to_timed_chunks chunk_loop
to_timed_chunks-Within sort_ascending s ss interval x xs fits e (hx, h) =
    rw (e, chunk_step-first interval x hx)
      (chunk_loop-Within interval xs
        (record { chunks = []; chunk = x ∷ []; last_time = x.creation_time }) fits h
        (tt, (refl, hx), tt))
