-- ===== src/Snapmanager.antt =====
-- `toTimedChunks` of pkg/cmd/snapmanager/snapmanager.go: which snapshots are pruned together.
pub mod Chunks
pub mod Manager
pub mod Snaputil
pub mod Pruning
use btrsync.Common.{Bool, ℕ, ◌+◌, ◌-◌, ◌^◌, List, [], ◌∷◌, ◌++◌, ◌==◌, ltb, if◌then◌else◌}
use btrsync.Common.Int.{ℤ, pos, negsuc, lt_int}
use btrsync.Btrfs.RootInfo.{RootInfo}

-- `t.Sub(u)`, which stops at the greatest and at the least `time.Duration`.
unfoldable pub sub : ℕ → ℕ → ℤ
sub t u =
    if ltb t u
    then negsuc (if ltb (2 ^ 63 - 1) (u - t - 1) then 2 ^ 63 - 1 else u - t - 1)
    else pos (if ltb (2 ^ 63 - 1) (t - u) then 2 ^ 63 - 1 else t - u)

-- The variables of the loop.
pub record Chunking : Type 0 where
  pub chunks : List (List RootInfo)
  pub chunk : List RootInfo
  pub last_time : ℕ

-- The first statement of a round.
unfoldable pub start_time : RootInfo → ℕ → ℕ
start_time snap last = if last == 0 then snap.creation_time else last

unfoldable pub chunk_step : ℤ → RootInfo → Chunking → Chunking
unfolding start_time sub lt_int
chunk_step interval snap c =
    let last = start_time snap c.last_time in
    if lt_int interval (sub snap.creation_time last)
    then record {
      chunks = c.chunks ++ (c.chunk ∷ []);
      chunk = snap ∷ [];
      last_time = snap.creation_time;
    }
    else record { chunks = c.chunks; chunk = c.chunk ++ (snap ∷ []); last_time = last }

unfoldable pub chunk_loop : ℤ → List RootInfo → Chunking → List (List RootInfo)
unfolding chunk_step
chunk_loop interval [] c = c.chunks ++ (c.chunk ∷ [])
chunk_loop interval (snap ∷ snaps) c = chunk_loop interval snaps (chunk_step interval snap c)

-- `sort.Slice` by ascending creation time is of another package.
module _ (sort_ascending : List RootInfo → List RootInfo) where
  unfoldable pub to_timed_chunks : List RootInfo → ℤ → List (List RootInfo)
  unfolding chunk_loop
  to_timed_chunks [] interval = []
  to_timed_chunks (s ∷ ss) interval =
      chunk_loop interval (sort_ascending (s ∷ ss))
        (record { chunks = []; chunk = []; last_time = 0 })
