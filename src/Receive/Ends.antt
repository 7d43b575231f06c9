-- ===== src/Receive/Ends.antt =====
-- What it means that a function of pkg/receive ends, and the helpers of the process functions.
pub mod Process
pub mod Streams
use btrsync.Sendstream.Scanner
use btrsync.Sendstream.Scanner.{read}
use btrsync.Receive.Process.Contents.{decompressed, optional_uint}
use btrsync.Common.{
  ℕ, ◌≢◌, ◌≡◌, arith, ltb, leb, length, Bool-cases, Option-cases, inl, inr, if◌then◌else◌, Option,
  none, some, List, [], ◌∷◌,
}
use btrsync.Common.Bytes.{Bytes}
use btrsync.Common.Dict.{lookup}
use btrsync.Common.Outcome.{Outcome, ok, err, panic, stuck, bind_state}
use btrsync.Sendstream.Attributes.{SendAttribute}
use btrsync.Sendstream.Attrs.{CmdAttrs}
use btrsync.Sendstream.Attrs.Values.{Uuid, get_uint, read_timespec, first_byte}
use btrsync.Receive.Context.{Libraries, ReceiveCtx, M, call, set_subvol}
use btrsync.Receive.Process.Ensure.{check_keys, parsed_uuid, wrapped}
use btrsync.Receive.Receiver.{Op, Receiver, ReceiveContext, Error}

-- An outcome that is not `stuck`, also of a call that changes an object.
pub data Ends {E A : Type 0} : Outcome E A → Type 0 where
  ends_ok : (a : A) → Ends (ok a)
  ends_err : (e : E) → Ends (err e)
  ends_panic : Ends panic

-- As a statement about a pair, for a search by its first component.
pub record Answers {E A S : Type 0} (x : Outcome E A × S) : Type 0 where
  pub ends : Ends x.0

pub Answers-bind_state :
    {E A B S : Type 0} (x : Outcome E A × S) (f : A → S → Outcome E B × S)
    → Answers x
    → ((a : A) (s : S) → Answers (f a s))
    → Answers (bind_state x f)
Answers-bind_state (ok a, s) f h k = k a s
Answers-bind_state (err e, s) f h k = record { ends = ends_err e }
Answers-bind_state (panic, s) f h k = record { ends = ends_panic }
Answers-bind_state (stuck, s) f h k = record { ends = elim h.ends [ ] }

pub Answers-pair : {E A S : Type 0} (r : Outcome E A) (s : S) → Ends r → Answers (r, s)
Answers-pair r s h = record { ends = h }

pub get_uint-Ends : {E : Type 0} (n : ℕ) (d : Bytes) → Ends {E = E} (get_uint n d)
unfolding get_uint
get_uint-Ends n d = elim (Bool-cases (leb n (length d))) [
  | inl e ↦ rw e (ends_ok _)
  | inr e ↦ rw e ends_panic
]

pub first_byte-Ends : {E : Type 0} (d : Bytes) → Ends {E = E} (first_byte d)
unfolding first_byte
first_byte-Ends [] = ends_panic
first_byte-Ends (b ∷ d) = ends_ok b

pub read_timespec-Ends : (d : Bytes) → Ends (read_timespec d)
unfolding read_timespec read
read_timespec-Ends [] = ends_err _
read_timespec-Ends (b ∷ d) = elim (Bool-cases (leb 12 (length (b ∷ d)))) [
  | inl e ↦ rw e (ends_ok _)
  | inr e ↦ rw e (ends_err _)
]

pub wrapped-Ends : {A : Type 0} (r : Outcome Scanner.Error A) → Ends r → Ends (wrapped r)
unfolding wrapped
wrapped-Ends (ok a) h = ends_ok a
wrapped-Ends (err e) h = ends_err (Error.stream e)
wrapped-Ends panic h = ends_panic
wrapped-Ends stuck h = elim h [ ]

pub check_keys-Ends : (attrs : CmdAttrs) (keys : List SendAttribute) → Ends (check_keys attrs keys)
unfolding check_keys
check_keys-Ends attrs [] = ends_ok tt
check_keys-Ends attrs (k ∷ keys) = elim (Option-cases (lookup k attrs)) [
  | inl e ↦ rw (check_keys, e) (ends_err _)
  | inr (v, e) ↦ rw (check_keys, e) (check_keys-Ends attrs keys)
]

pub parsed_uuid-Ends : (o : Option Uuid) → Ends (parsed_uuid o)
unfolding parsed_uuid
parsed_uuid-Ends none = ends_err _
parsed_uuid-Ends (some u) = ends_ok u

pub decompressed-Ends : (o : Option Bytes) → Ends (decompressed o)
unfolding decompressed
decompressed-Ends none = ends_err _
decompressed-Ends (some b) = ends_ok b

pub optional_uint-Ends : (d : Bytes) (r : Outcome Error ℕ) → Ends r → Ends (optional_uint d r)
unfolding optional_uint
optional_uint-Ends d r h = elim (Bool-cases (ltb 0 (length d))) [
  | inl e ↦ rw e h
  | inr e ↦ rw e (ends_ok 0)
]

-- A receiver whose calls end.
abbrev pub CallsEnd : Receiver → Type 0
CallsEnd R = (c : ReceiveContext) (op : Op) (s : R.State) → Answers (R.call c op s)

module _ (R : Receiver) (L : Libraries) (calls : CallsEnd R) where
  pub call-Answers : (op : Op) (c : ReceiveCtx R) → Answers (call R op c)
  unfolding call
  call-Answers op c = record { ends = (calls _ op c.receiver).ends }
