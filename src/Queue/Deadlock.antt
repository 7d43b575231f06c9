-- ===== src/Queue/Deadlock.antt =====
-- How `Wait` of pkg/cmd/queue/queue.go may never return.
use btrsync.Common.{
  ℕ, ◌+◌, ◌≤◌, ◌<◌, Option, List, [], ◌∷◌, ◌++◌, length, ◌≡◌, ◌≢◌, refl, ap, sym, ◌∙◌, arith,
}
use btrsync.Queue.{
  Pc, running, failing, releasing, exiting, in_wait_group, selecting, ConcurrentQueue, capacity,
  with_nil, with_error, Step, push, start, return, send, hand_over, release, leave, wait,
  wait_group_done, receive, cancelled, drain, stop, Steps, done, later,
}

-- Workers that wait to send an error.
abbrev pub sending : Pc → ℕ
sending failing = 1
sending _ = 0

abbrev pub all_sending : List (ℕ × Pc) → ℕ
all_sending [] = 0
all_sending ((f, p) ∷ ws) = sending p + all_sending ws

all_sending-append :
    (xs ys : List (ℕ × Pc)) → all_sending (xs ++ ys) ≡ all_sending xs + all_sending ys
all_sending-append [] ys = omega arith
all_sending-append ((f, p) ∷ xs) ys = omega (arith, all_sending-append xs ys)

-- `Wait` waits for the workers, the channel is full, and a worker waits to send.
pub record Blocked (limit : Option ℕ) (s : ConcurrentQueue) : Type 0 where
  pub in_wait : s.wait_pc ≡ in_wait_group
  pub full : capacity limit ≤ length s.errs
  pub one_sends : 0 < all_sending s.workers

not_selecting : in_wait_group ≢ selecting
not_selecting h = cc

-- A worker that goes on, but not from its send.
still_sends :
    (s : ConcurrentQueue) (f : ℕ) (xs ys zs : List (ℕ × Pc)) (p : Pc)
    → s.workers ≡ xs ++ (f, p) ∷ ys
    → sending p ≡ 0
    → 0 < all_sending s.workers
    → all_sending zs ≡ all_sending ys
    → 0 < all_sending (xs ++ zs)
still_sends s f xs ys zs p e idle h same = omega (
  arith,
  h,
  ap all_sending e,
  all_sending-append xs ((f, p) ∷ ys),
  all_sending-append xs zs,
  idle,
  same,
)

Step-Blocked :
    (limit : Option ℕ) (s t : ConcurrentQueue) → Step limit s t → Blocked limit s → Blocked limit t
Step-Blocked limit s _ (push f) b = record {
  in_wait = b.in_wait;
  full = b.full;
  one_sends = b.one_sends;
}
Step-Blocked limit s _ (start f rest r room e) b = record {
  in_wait = b.in_wait;
  full = b.full;
  one_sends = omega (arith, b.one_sends, all_sending-append s.workers ((f, running) ∷ []));
}
Step-Blocked limit s _ (return f xs ys e with_nil) b = record {
  in_wait = b.in_wait;
  full = b.full;
  one_sends = still_sends s f xs ys ((f, releasing) ∷ ys) running e refl b.one_sends (omega arith);
}
Step-Blocked limit s _ (return f xs ys e with_error) b = record {
  in_wait = b.in_wait;
  full = b.full;
  one_sends = omega (arith, all_sending-append xs ((f, failing) ∷ ys));
}
Step-Blocked limit s _ (send f xs ys e room) b = absurd (omega (arith, room, b.full))
Step-Blocked limit s _ (hand_over f xs ys e w none_left) b =
    absurd (not_selecting (sym b.in_wait ∙ w))
Step-Blocked limit s _ (release f xs ys e) b = record {
  in_wait = b.in_wait;
  full = b.full;
  one_sends = still_sends s f xs ys ((f, exiting) ∷ ys) releasing e refl b.one_sends (omega arith);
}
Step-Blocked limit s _ (leave f xs ys e) b = record {
  in_wait = b.in_wait;
  full = b.full;
  one_sends = still_sends s f xs ys ys exiting e refl b.one_sends refl;
}
Step-Blocked limit s _ (wait w) b = record {
  in_wait = refl;
  full = b.full;
  one_sends = b.one_sends;
}
Step-Blocked limit s _ (wait_group_done w e) b =
    absurd (omega (arith, b.one_sends, ap all_sending e))
Step-Blocked limit s _ (receive f rest w e) b = absurd (not_selecting (sym b.in_wait ∙ w))
Step-Blocked limit s _ (cancelled w r) b = absurd (not_selecting (sym b.in_wait ∙ w))
Step-Blocked limit s _ (drain r room e w) b = record {
  in_wait = b.in_wait;
  full = b.full;
  one_sends = b.one_sends;
}
Step-Blocked limit s _ (stop r e) b = record {
  in_wait = b.in_wait;
  full = b.full;
  one_sends = b.one_sends;
}

pub Steps-Blocked :
    (limit : Option ℕ) (s t : ConcurrentQueue) → Blocked limit s → Steps limit s t → Blocked limit t
Steps-Blocked limit s _ b done = b
Steps-Blocked limit s _ b (later {t} steps step) =
    Step-Blocked limit t _ step (Steps-Blocked limit s t b steps)

-- Wait never returns once it waits for the workers while one of them waits to send an error into a
-- full channel: whatever steps follow, Wait is still there. Without a limit of the concurrency the
-- channel has size 0 and is always full; else it has one place more than the concurrency.
pub Steps-never_return :
    (limit : Option ℕ) (s t : ConcurrentQueue)
    → Blocked limit s
    → Steps limit s t
    → t.wait_pc ≡ in_wait_group
Steps-never_return limit s t b steps = (Steps-Blocked limit s t b steps).in_wait
