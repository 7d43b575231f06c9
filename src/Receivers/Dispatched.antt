-- ===== src/Receivers/Dispatched.antt =====
-- pkg/receive/receivers/dispatch/dispatch.go: a receiver that gives each call to a list of them.
use btrsync.Common.{List, [], ◌∷◌, ◌++◌, none, ◌≡◌, ◌≢◌, refl, ap, ◌∙◌, inl, inr}
use btrsync.Common.Outcome.{Outcome, ok, err, panic, stuck, Outcome-cases}
use btrsync.Receive.Receiver.{Error, Op, Receiver, ReceiveContext}

-- The state of each receiver.
abbrev pub States : List Receiver → Type 0
States [] = Unit
States (r ∷ rs) = r.State × States rs

-- The loop that each method has: the first error ends it.
unfoldable pub for_each :
    (rs : List Receiver) → ReceiveContext → Op → States rs → Outcome Error (Unit {0}) × States rs
for_each [] ctx op ss = (ok tt, tt)
for_each (r ∷ rs) ctx op (s, ss) =
    let (result, s') = r.call ctx op s in
    elim result [
      | ok u ↦ (let (rest, ss') = for_each rs ctx op ss in (rest, (s', ss')))
      | err e ↦ (err e, (s', ss))
      | panic ↦ (panic, (s', ss))
      | stuck ↦ (stuck, (s', ss))
    ]

-- It has no pre-op and no post-op, whatever its receivers have.
abbrev pub dispatch_receiver : List Receiver → Receiver
dispatch_receiver rs = record {
  State = States rs;
  call = for_each rs;
  pre_op = none;
  post_op = none;
}

abbrev pub join_states : (rs qs : List Receiver) → States rs → States qs → States (rs ++ qs)
join_states [] qs ss ts = ts
join_states (r ∷ rs) qs (s, ss) ts = (s, join_states rs qs ss ts)

-- The states after each receiver gets the call.
abbrev pub called : (rs : List Receiver) → ReceiveContext → Op → States rs → States rs
called [] ctx op ss = tt
called (r ∷ rs) ctx op (s, ss) = ((r.call ctx op s).1, called rs ctx op ss)

-- No receiver fails on the call.
abbrev pub AllOk : (rs : List Receiver) → ReceiveContext → Op → States rs → Type 0
AllOk [] ctx op ss = Unit
AllOk (r ∷ rs) ctx op (s, ss) = ((r.call ctx op s).0 ≡ ok tt) × AllOk rs ctx op ss

-- Receivers that do not fail, in front of others.
for_each-AllOk :
    (rs qs : List Receiver) (ctx : ReceiveContext) (op : Op) (ss : States rs) (ts : States qs)
    → AllOk rs ctx op ss
    → for_each (rs ++ qs) ctx op (join_states rs qs ss ts) ≡ (
        let (rest, ts') = for_each qs ctx op ts in
        (rest, join_states rs qs (called rs ctx op ss) ts'))
unfolding for_each
for_each-AllOk [] qs ctx op ss ts oks = refl
for_each-AllOk (r ∷ rs) qs ctx op (s, ss) ts (e, oks) =
    rw (e, for_each-AllOk rs qs ctx op ss ts oks)

for_each-all_called :
    (rs : List Receiver) (ctx : ReceiveContext) (op : Op) (ss : States rs)
    → AllOk rs ctx op ss
    → for_each rs ctx op ss ≡ (ok tt, called rs ctx op ss)
unfolding for_each
for_each-all_called [] ctx op ss oks = refl
for_each-all_called (r ∷ rs) ctx op (s, ss) (e, oks) = rw (e, for_each-all_called rs ctx op ss oks)

-- A receiver that fails, in front of others.
for_each-failure :
    (r : Receiver) (qs : List Receiver) (ctx : ReceiveContext) (op : Op) (s : r.State)
    (ts : States qs)
    → (r.call ctx op s).0 ≢ ok tt
    → for_each (r ∷ qs) ctx op (s, ts) ≡ ((r.call ctx op s).0, ((r.call ctx op s).1, ts))
unfolding for_each
for_each-failure r qs ctx op s ts fails = elim (Outcome-cases ((r.call ctx op s).0)) [
  | inl (tt, e) ↦ absurd (fails e)
  | inr (inl (x, e)) ↦ rw e refl
  | inr (inr (inl e)) ↦ rw e refl
  | inr (inr (inr e)) ↦ rw e refl
]

-- A call on a dispatch receiver, of which the first receivers do not fail on it and the next one
-- gives an error, a panic or no end: the first receivers get the call, in order, and alone they
-- would give no error; the next one gets it too, what it gives is the result, and the states of
-- the receivers behind it are untouched.
pub for_each-first_failure :
    (rs : List Receiver) (r : Receiver) (qs : List Receiver) (ctx : ReceiveContext) (op : Op)
    (ss : States rs) (s : r.State) (ts : States qs)
    → AllOk rs ctx op ss
    → (r.call ctx op s).0 ≢ ok tt
    → (for_each rs ctx op ss ≡ (ok tt, called rs ctx op ss))
      × (for_each (rs ++ r ∷ qs) ctx op (join_states rs (r ∷ qs) ss (s, ts)) ≡ (
        (r.call ctx op s).0,
        join_states rs (r ∷ qs) (called rs ctx op ss) ((r.call ctx op s).1, ts),
      ))
for_each-first_failure rs r qs ctx op ss s ts oks fails = (
  for_each-all_called rs ctx op ss oks,
  for_each-AllOk rs (r ∷ qs) ctx op ss (s, ts) oks
      ∙ ap (λ p. (p.0, join_states rs (r ∷ qs) (called rs ctx op ss) p.1))
          (for_each-failure r qs ctx op s ts fails),
)
