-- ===== src/Tests/Queues.antt =====
-- The theorems on the queue applied at concrete runs.
use btrsync.Common.{ℕ, Option, none, some, true, [], ◌∷◌, ◌≡◌, refl, arith}
use btrsync.Queue.{
  has_room, failing, running, not_called, in_wait_group, looping, ConcurrentQueue, new_queue,
  with_error, push, start, return, wait, Steps, done, later,
}
use btrsync.Queue.Bounds.{Bounds, Steps-Bounds}
use btrsync.Queue.Deadlock.{Blocked, Steps-never_return}

-- A function 7 was pushed and started, with a concurrency of one.
abbrev one_started : ConcurrentQueue
one_started = record {
  current = 1;
  queue = [];
  errs = [];
  workers = (7, running) ∷ [];
  wait_pc = not_called;
  run_pc = looping;
  pushed = 7 ∷ [];
  started = 7 ∷ [];
}

one_started-Steps : (limit : Option ℕ) → has_room limit 0 ≡ true → Steps limit new_queue one_started
one_started-Steps limit room = later (later done (push 7)) (start 7 [] refl room refl)

Steps-Bounds_example : Bounds (some 1) one_started
Steps-Bounds_example = Steps-Bounds (some 1) one_started (one_started-Steps (some 1) refl)

-- The function fails behind a call of `Wait`, without a limit of the concurrency.
abbrev one_failed : ConcurrentQueue
one_failed = record one_started { workers = (7, failing) ∷ []; wait_pc = in_wait_group }

one_failed-Steps : Steps none new_queue one_failed
one_failed-Steps =
    later (later (one_started-Steps none refl) (wait refl)) (return 7 [] [] refl with_error)

one_failed-Blocked : Blocked none one_failed
one_failed-Blocked = record { in_wait = refl; full = omega arith; one_sends = omega arith }

abbrev one_more : ConcurrentQueue
one_more = record one_failed { queue = 8 ∷ []; pushed = 7 ∷ 8 ∷ [] }

Steps-never_return_example : one_more.wait_pc ≡ in_wait_group
Steps-never_return_example =
    Steps-never_return none one_failed one_more one_failed-Blocked (later done (push 8))
