-- ===== src/Sendstream/Scanner/Parse.antt =====
-- The attribute loop on any bytes, and on what `Encode` wrote.
use btrsync.Common.{
  ℕ, zero, suc, ◌^◌, ◌≤◌, ◌<◌, ◌≡◌, ◌≢◌, refl, arith, inl, inr, [], ◌∷◌, ◌++◌, append_assoc, length,
  take-append_length, drop-append_length, length-drop, length-append, le→leb, ==_ne,
}
use btrsync.Common.Bytes.{Bytes, put_uint, length-put_uint, le_value, le_value-put_uint}
use btrsync.Common.Dict.{insert}
use btrsync.Common.Outcome.{ok, stuck, Outcome-cases}
use btrsync.Sendstream.Attributes.{SendAttribute, btrfs_send_a_data}
use btrsync.Sendstream.Attrs.{CmdAttrs}
use btrsync.Sendstream.Attrs.Encoding.{entry}
use btrsync.Sendstream.Scanner.{read, read_attribute, parse_loop, parse_attrs}

-- A read of all of `xs` from `xs` and more.
pub read-append : (n : ℕ) (xs rest : Bytes) → length xs ≡ n → read n (xs ++ rest) ≡ (ok xs, rest)
unfolding read
read-append n [] [] e = rw (← e)
read-append n [] (b ∷ rest) e = rw (← e, le→leb 0 (suc (length rest)) (omega arith))
read-append n (x ∷ xs) rest e = rw (
  ← e,
  le→leb (suc (length xs)) (suc (length (xs ++ rest))) (omega (arith, length-append {0} xs rest)),
  take-append_length,
  drop-append_length,
)

-- A round takes two bytes at least.
pub read_attribute-lt :
    (d : Bytes) {k : SendAttribute} {v rest : Bytes}
    → read_attribute d ≡ ok (k, v, rest)
    → length rest < length d
unfolding read_attribute read
read_attribute-lt [] e = ground arith
read_attribute-lt (b ∷ []) e = ground arith
read_attribute-lt (b ∷ c ∷ []) e = ground arith
read_attribute-lt (b ∷ c ∷ b' ∷ []) e = ground arith
read_attribute-lt (b ∷ c ∷ b' ∷ c' ∷ d) {rest} e =
    ground (arith, length-drop (le_value (b' ∷ c' ∷ [])) d)

read_attribute-ne-stuck : (d : Bytes) → read_attribute d ≢ stuck
unfolding read_attribute read
read_attribute-ne-stuck [] = ground arith
read_attribute-ne-stuck (b ∷ d) = ground arith

parse_loop-ne-stuck :
    (fuel : ℕ) (d : Bytes) (c : CmdAttrs) → length d ≤ fuel → parse_loop fuel d c ≢ stuck
unfolding parse_loop
parse_loop-ne-stuck fuel [] c h = λ e. cc
parse_loop-ne-stuck zero (b ∷ d) c h = absurd (omega arith)
parse_loop-ne-stuck (suc fuel) (b ∷ d) c h = elim (Outcome-cases (read_attribute (b ∷ d))) [
  | inl ((k, v, rest), e) ↦
      rw e
        (parse_loop-ne-stuck fuel rest (insert k v c) (omega (arith, read_attribute-lt (b ∷ d) e)))
  | inr (inl (x, e)) ↦ rw e (λ p. cc)
  | inr (inr (inl e)) ↦ rw e (λ p. cc)
  | inr (inr (inr e)) ↦ absurd (read_attribute-ne-stuck (b ∷ d) e)
]

-- The attribute loop ends on any bytes: fuel of the number of bytes never runs out.
pub parse_attrs-ne-stuck : (d : Bytes) → parse_attrs d ≢ stuck
unfolding parse_attrs
parse_attrs-ne-stuck d = parse_loop-ne-stuck (length d) d [] (omega arith)

-- More fuel than bytes changes nothing.
pub parse_loop_fuel :
    (f g : ℕ) (d : Bytes) (c : CmdAttrs)
    → length d ≤ f
    → length d ≤ g
    → parse_loop f d c ≡ parse_loop g d c
unfolding parse_loop
parse_loop_fuel f g [] c h l = refl
parse_loop_fuel zero g (b ∷ d) c h l = absurd (omega arith)
parse_loop_fuel (suc f) zero (b ∷ d) c h l = absurd (omega arith)
parse_loop_fuel (suc f) (suc g) (b ∷ d) c h l = elim (Outcome-cases (read_attribute (b ∷ d))) [
  | inl ((k, v, rest), e) ↦
      let shorter = read_attribute-lt (b ∷ d) e in
      rw e (parse_loop_fuel f g rest (insert k v c) (omega arith) (omega arith))
  | inr (inl (x, e)) ↦ rw e
  | inr (inr (inl e)) ↦ rw e
  | inr (inr (inr e)) ↦ rw e
]

-- An attribute whose number and length fit 16 bits.
abbrev pub Fits : SendAttribute × Bytes → Type 0
Fits (k, v) = (k < 2 ^ 16) × (length v < 2 ^ 16)

pub read_attribute-entry :
    (k : SendAttribute) (v rest : Bytes)
    → Fits (k, v)
    → k ≢ btrfs_send_a_data
    → read_attribute (entry k v ++ rest) ≡ ok (k, v, rest)
unfolding read_attribute
read_attribute-entry k v rest (hk, hv) ne = rw (
  append_assoc (put_uint 2 k) (put_uint 2 (length v) ++ v) rest,
  append_assoc (put_uint 2 (length v)) v rest,
  read-append 2 (put_uint 2 k) (put_uint 2 (length v) ++ (v ++ rest)) (length-put_uint 2 k),
  le_value-put_uint 2 k hk,
  ==_ne k btrfs_send_a_data ne,
  read-append 2 (put_uint 2 (length v)) (v ++ rest) (length-put_uint 2 (length v)),
  le_value-put_uint 2 (length v) hv,
  le→leb (length v) (length (v ++ rest)) (omega (arith, length-append {0} v rest)),
  take-append_length v rest,
  drop-append_length v rest,
)

pub read_attribute-data :
    (v : Bytes) → read_attribute (put_uint 2 btrfs_send_a_data ++ v) ≡ ok (btrfs_send_a_data, v, [])
unfolding read_attribute
read_attribute-data v = rw (
  read-append 2 (put_uint 2 btrfs_send_a_data) v (length-put_uint 2 btrfs_send_a_data),
  le_value-put_uint 2 btrfs_send_a_data (omega arith),
)
