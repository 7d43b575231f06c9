-- ===== src/Queue.antt =====
-- `ConcurrentQueue` of pkg/cmd/queue/queue.go as steps of its goroutines: the caller's (`Push`, `Wait`),
-- that of `run`, and a worker for each function. A function is a number. A step is what happens under
-- the mutex, or one operation on a channel, a wait group or the mutex of `Wait`.
pub mod Bounds
pub mod Deadlock
use btrsync.Common.{
  ℕ, zero, suc, ◌+◌, ◌-◌, ◌<◌, Bool, true, false, Option, none, some, List, [], ◌∷◌, ◌++◌, length,
  ltb, ◌≡◌, ◌≢◌,
}

-- Where the goroutine of a function is: in the function, before the send of its error, before
-- `c.current--`, and before `c.wg.Done()`.
pub data Pc : Type 0 where
  running failing releasing exiting : Pc

-- Where `Wait` is: not called, in `c.wg.Wait()`, in the `select`, or returned with the error of a
-- function or nil.
pub data WaitPc : Type 0 where
  not_called in_wait_group selecting : WaitPc
  returned : Option ℕ → WaitPc

-- Where `run` is: in its loop, in `c.wg.Wait()`, or behind `c.cancel()`.
pub data RunPc : Type 0 where
  looping draining stopped : RunPc

-- The queue, with the functions that were pushed and started in all.
pub record ConcurrentQueue : Type 0 where
  pub current : ℕ
  pub queue : List ℕ
  pub errs : List ℕ
  pub workers : List (ℕ × Pc)
  pub wait_pc : WaitPc
  pub run_pc : RunPc
  pub pushed : List ℕ
  pub started : List ℕ

abbrev pub new_queue : ConcurrentQueue
new_queue = record {
  current = 0;
  queue = [];
  errs = [];
  workers = [];
  wait_pc = not_called;
  run_pc = looping;
  pushed = [];
  started = [];
}

-- The concurrency, of which `none` is -1: whether a function may start, and the size of the channel.
abbrev pub has_room : Option ℕ → ℕ → Bool
has_room none current = true
has_room (some n) current = ltb current n

abbrev pub capacity : Option ℕ → ℕ
capacity none = 0
capacity (some n) = suc n

-- A function returns.
pub data Returns : Pc → Type 0 where
  with_nil : Returns releasing
  with_error : Returns failing

pub data Step (limit : Option ℕ) (s : ConcurrentQueue) : ConcurrentQueue → Type 0 where
  push :
      (f : ℕ) → Step limit s (record s { queue = s.queue ++ f ∷ []; pushed = s.pushed ++ f ∷ [] })
  start :
      (f : ℕ) (rest : List ℕ)
      → s.run_pc ≡ looping
      → has_room limit s.current ≡ true
      → s.queue ≡ f ∷ rest
      → Step limit s (record s {
        current = suc s.current;
        queue = rest;
        workers = s.workers ++ (f, running) ∷ [];
        started = s.started ++ f ∷ [];
      })
  return :
      (f : ℕ) (xs ys : List (ℕ × Pc)) {p : Pc}
      → s.workers ≡ xs ++ (f, running) ∷ ys
      → Returns p
      → Step limit s (record s { workers = xs ++ (f, p) ∷ ys })
  send :
      (f : ℕ) (xs ys : List (ℕ × Pc))
      → s.workers ≡ xs ++ (f, failing) ∷ ys
      → length s.errs < capacity limit
      → Step limit s (record s { workers = xs ++ (f, releasing) ∷ ys; errs = s.errs ++ f ∷ [] })
  hand_over :
      (f : ℕ) (xs ys : List (ℕ × Pc))
      → s.workers ≡ xs ++ (f, failing) ∷ ys
      → s.wait_pc ≡ selecting
      → s.errs ≡ []
      → Step limit s (record s { workers = xs ++ (f, releasing) ∷ ys; wait_pc = returned (some f) })
  release :
      (f : ℕ) (xs ys : List (ℕ × Pc))
      → s.workers ≡ xs ++ (f, releasing) ∷ ys
      → Step limit s (record s { workers = xs ++ (f, exiting) ∷ ys; current = s.current - 1 })
  leave :
      (f : ℕ) (xs ys : List (ℕ × Pc))
      → s.workers ≡ xs ++ (f, exiting) ∷ ys
      → Step limit s (record s { workers = xs ++ ys })
  wait : s.wait_pc ≡ not_called → Step limit s (record s { wait_pc = in_wait_group })
  wait_group_done :
      s.wait_pc ≡ in_wait_group → s.workers ≡ [] → Step limit s (record s { wait_pc = selecting })
  receive :
      (f : ℕ) (rest : List ℕ)
      → s.wait_pc ≡ selecting
      → s.errs ≡ f ∷ rest
      → Step limit s (record s { wait_pc = returned (some f); errs = rest })
  cancelled :
      s.wait_pc ≡ selecting
      → s.run_pc ≡ stopped
      → Step limit s (record s { wait_pc = returned none })
  drain :
      s.run_pc ≡ looping
      → has_room limit s.current ≡ true
      → s.queue ≡ []
      → s.wait_pc ≢ not_called
      → Step limit s (record s { run_pc = draining })
  stop : s.run_pc ≡ draining → s.workers ≡ [] → Step limit s (record s { run_pc = stopped })

pub data Steps (limit : Option ℕ) (s : ConcurrentQueue) : ConcurrentQueue → Type 0 where
  done : Steps limit s s
  later : {t u : ConcurrentQueue} → Steps limit s t → Step limit t u → Steps limit s u
