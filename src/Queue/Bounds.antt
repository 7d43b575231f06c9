-- ===== src/Queue/Bounds.antt =====
-- What holds in every state of `ConcurrentQueue` (pkg/cmd/queue/queue.go).
use btrsync.Common.{
  ℕ, suc, ◌+◌, ◌-◌, ◌≤◌, true, Option, none, some, List, [], ◌∷◌, ◌++◌, length, length-append,
  append_assoc, ◌≡◌, refl, ap, sym, ◌∙◌, arith,
}
use btrsync.Queue.{
  Pc, running, failing, releasing, exiting, ConcurrentQueue, new_queue, has_room, capacity,
  with_nil, with_error, Step, push, start, return, send, hand_over, release, leave, wait,
  wait_group_done, receive, cancelled, drain, stop, Steps, done, later,
}

-- A worker takes up a place until it released it.
abbrev pub places : Pc → ℕ
places exiting = 0
places _ = 1

abbrev pub all_places : List (ℕ × Pc) → ℕ
all_places [] = 0
all_places ((f, p) ∷ ws) = places p + all_places ws

pub all_places-append :
    (xs ys : List (ℕ × Pc)) → all_places (xs ++ ys) ≡ all_places xs + all_places ys
all_places-append [] ys = omega arith
all_places-append ((f, p) ∷ xs) ys = omega (arith, all_places-append xs ys)

abbrev pub AtMost : ℕ → Option ℕ → Type 0
AtMost k none = Unit
AtMost k (some n) = k ≤ n

-- No more functions than the concurrency run at a time, the channel does not overflow, and the
-- functions start in the order in which they were pushed, each once.
pub record Bounds (limit : Option ℕ) (s : ConcurrentQueue) : Type 0 where
  pub counted : s.current ≡ all_places s.workers
  pub bounded : AtMost s.current limit
  pub in_order : s.started ++ s.queue ≡ s.pushed
  pub fits : length s.errs ≤ capacity limit

room-AtMost : (limit : Option ℕ) (k : ℕ) → has_room limit k ≡ true → AtMost (suc k) limit
room-AtMost none k h = tt
room-AtMost (some n) k h = ground (arith, h)

AtMost-le : (limit : Option ℕ) (k l : ℕ) → l ≤ k → AtMost k limit → AtMost l limit
AtMost-le none k l le h = tt
AtMost-le (some n) k l le h = omega (arith, le, h)

-- The places of the workers around one that goes on.
around :
    (s : ConcurrentQueue) (f : ℕ) (xs ys : List (ℕ × Pc)) (p : Pc)
    → s.workers ≡ xs ++ (f, p) ∷ ys
    → s.current ≡ all_places s.workers
    → s.current ≡ all_places xs + (places p + all_places ys)
around s f xs ys p e h = h ∙ ap all_places e ∙ all_places-append xs ((f, p) ∷ ys)

goes_on :
    (s : ConcurrentQueue) (f : ℕ) (xs ys : List (ℕ × Pc)) (p q : Pc)
    → places p ≡ places q
    → s.workers ≡ xs ++ (f, p) ∷ ys
    → s.current ≡ all_places s.workers
    → s.current ≡ all_places (xs ++ (f, q) ∷ ys)
goes_on s f xs ys p q same e h =
    omega (arith, around s f xs ys p e h, all_places-append xs ((f, q) ∷ ys), same)

Step-Bounds :
    (limit : Option ℕ) (s t : ConcurrentQueue) → Step limit s t → Bounds limit s → Bounds limit t
Step-Bounds limit s _ (push f) b = record {
  counted = b.counted;
  bounded = b.bounded;
  in_order = sym (append_assoc s.started s.queue (f ∷ [])) ∙ ap (λ l. l ++ f ∷ []) b.in_order;
  fits = b.fits;
}
Step-Bounds limit s _ (start f rest looping room e) b = record {
  counted = omega (arith, b.counted, all_places-append s.workers ((f, running) ∷ []));
  bounded = room-AtMost limit s.current room;
  in_order = append_assoc s.started (f ∷ []) rest ∙ ap (λ l. s.started ++ l) (sym e) ∙ b.in_order;
  fits = b.fits;
}
Step-Bounds limit s _ (return f xs ys e with_nil) b = record {
  counted = goes_on s f xs ys running releasing refl e b.counted;
  bounded = b.bounded;
  in_order = b.in_order;
  fits = b.fits;
}
Step-Bounds limit s _ (return f xs ys e with_error) b = record {
  counted = goes_on s f xs ys running failing refl e b.counted;
  bounded = b.bounded;
  in_order = b.in_order;
  fits = b.fits;
}
Step-Bounds limit s _ (send f xs ys e room) b = record {
  counted = goes_on s f xs ys failing releasing refl e b.counted;
  bounded = b.bounded;
  in_order = b.in_order;
  fits = omega (arith, room, length-append s.errs (f ∷ []));
}
Step-Bounds limit s _ (hand_over f xs ys e w none_left) b = record {
  counted = goes_on s f xs ys failing releasing refl e b.counted;
  bounded = b.bounded;
  in_order = b.in_order;
  fits = b.fits;
}
Step-Bounds limit s _ (release f xs ys e) b = record {
  counted =
      omega
        (arith, around s f xs ys releasing e b.counted, all_places-append xs ((f, exiting) ∷ ys));
  bounded = AtMost-le limit s.current (s.current - 1) (omega arith) b.bounded;
  in_order = b.in_order;
  fits = b.fits;
}
Step-Bounds limit s _ (leave f xs ys e) b = record {
  counted = omega (arith, around s f xs ys exiting e b.counted, all_places-append xs ys);
  bounded = b.bounded;
  in_order = b.in_order;
  fits = b.fits;
}
Step-Bounds limit s _ (receive f rest w e) b = record {
  counted = b.counted;
  bounded = b.bounded;
  in_order = b.in_order;
  fits = omega (arith, b.fits, ap length e);
}
Step-Bounds limit s _ (wait w) b = record {
  counted = b.counted;
  bounded = b.bounded;
  in_order = b.in_order;
  fits = b.fits;
}
Step-Bounds limit s _ (wait_group_done w e) b = record {
  counted = b.counted;
  bounded = b.bounded;
  in_order = b.in_order;
  fits = b.fits;
}
Step-Bounds limit s _ (cancelled w r) b = record {
  counted = b.counted;
  bounded = b.bounded;
  in_order = b.in_order;
  fits = b.fits;
}
Step-Bounds limit s _ (drain r room e w) b = record {
  counted = b.counted;
  bounded = b.bounded;
  in_order = b.in_order;
  fits = b.fits;
}
Step-Bounds limit s _ (stop r e) b = record {
  counted = b.counted;
  bounded = b.bounded;
  in_order = b.in_order;
  fits = b.fits;
}

new_queue-Bounds : (limit : Option ℕ) → Bounds limit new_queue
new_queue-Bounds none = record {
  counted = omega arith;
  bounded = tt;
  in_order = refl;
  fits = omega arith;
}
new_queue-Bounds (some n) = record {
  counted = omega arith;
  bounded = omega arith;
  in_order = refl;
  fits = omega arith;
}

-- In every state that steps of the goroutines reach from a new queue, the counter is the number of
-- functions that were started and did not release their place, it is at most the concurrency (if
-- that is not -1), the channel of errors holds no more than its size, and the functions that were
-- started, in that order, followed by the ones that wait are the functions that were pushed: each
-- starts once and in order.
pub Steps-Bounds :
    (limit : Option ℕ) (s : ConcurrentQueue) → Steps limit new_queue s → Bounds limit s
Steps-Bounds limit _ done = new_queue-Bounds limit
Steps-Bounds limit s (later {t} steps step) =
    Step-Bounds limit t s step (Steps-Bounds limit t steps)
