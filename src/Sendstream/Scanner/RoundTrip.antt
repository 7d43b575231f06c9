-- ===== src/Sendstream/Scanner/RoundTrip.antt =====
-- What the attribute loop of pkg/sendstream/scanner.go reads of what `Encode` wrote.
use btrsync.Common.{
  ℕ, ◌≡◌, ◌≢◌, refl, ◌∙◌, arith, inl, inr, Option, none, some, [], ◌∷◌, ◌++◌, append_assoc, length,
  ◌==◌, if◌then◌else◌, Option-cases, All,
}
use mathlib.Core.Option.{or_else}
use btrsync.Common.Bytes.{Bytes, put_uint}
use btrsync.Common.Dict.{lookup, insert, insert_all, NodupKeys, lookup-insert, lookup-insert_all}
use btrsync.Common.Outcome.{ok}
use btrsync.Sendstream.Attributes.{SendAttribute, btrfs_send_a_data}
use btrsync.Sendstream.Attrs.{CmdAttrs, encode, encode_data}
use btrsync.Sendstream.Attrs.Encoding.{entry, others, entries, data_part, encode-entries}
use btrsync.Sendstream.Scanner.{read, read_attribute, parse_loop, parse_attrs}
use btrsync.Sendstream.Scanner.Parse.{
  Fits, read_attribute-entry, read_attribute-data, read_attribute-lt, parse_loop_fuel,
}

-- Two maps with the same value at each key.
abbrev pub SameMap : CmdAttrs → CmdAttrs → Type 0
SameMap a b = (j : ℕ) → lookup j a ≡ lookup j b

parse_step :
    (d : Bytes) (c : CmdAttrs) {k : SendAttribute} {v rest : Bytes}
    → read_attribute d ≡ ok (k, v, rest)
    → parse_loop (length d) d c ≡ parse_loop (length rest) rest (insert k v c)
unfolding parse_loop
parse_step [] c e = unfold read_attribute read in cc
parse_step (b ∷ d) c {rest} e = rw e (
    parse_loop_fuel (length d) (length rest) rest _ (omega (arith, read_attribute-lt (b ∷ d) e))
      (omega arith))

-- An attribute that carries its length.
abbrev Other : SendAttribute × Bytes → Type 0
Other (k, v) = Fits (k, v) × (k ≢ btrfs_send_a_data)

parse-entries :
    (es : CmdAttrs) (rest : Bytes) (acc : CmdAttrs)
    → All Other es
    → parse_loop (length (entries es ++ rest)) (entries es ++ rest) acc
      ≡ parse_loop (length rest) rest (insert_all es acc)
unfolding entries insert_all
parse-entries [] rest acc h = refl
parse-entries ((k, v) ∷ es) rest acc ((fits, ne), h) =
    rw (append_assoc (entry k v) (entries es) rest) (
      parse_step _ acc (read_attribute-entry k v (entries es ++ rest) fits ne)
      ∙ parse-entries es rest (insert k v acc) h)

others-Other : (c : CmdAttrs) → All Fits (others c) → All Other (others c)
unfolding others
others-Other [] h = tt
others-Other ((k, v) ∷ c) h = ground (arith, others-Other c)

parse-others :
    (c : CmdAttrs) (rest : Bytes)
    → All Fits (others c)
    → parse_loop (length (entries (others c) ++ rest)) (entries (others c) ++ rest) []
      ≡ parse_loop (length rest) rest (insert_all (others c) [])
parse-others c rest h = parse-entries (others c) rest [] (others-Other c h)

lookup-others :
    (j : ℕ) (c : CmdAttrs)
    → lookup j (others c) ≡ (if j == btrfs_send_a_data then none else lookup j c)
unfolding lookup others
lookup-others j [] = ground arith
lookup-others j ((k, v) ∷ c) = ground (arith, lookup-others j c)

others-NodupKeys : (c : CmdAttrs) → NodupKeys c → NodupKeys (others c)
unfolding others
others-NodupKeys [] u = u
others-NodupKeys ((k, v) ∷ c) (absent, u) = ground (arith, others-NodupKeys c u, lookup-others k c)

-- The data, if any, on top of the other attributes.
add_data : Option Bytes → CmdAttrs → CmdAttrs
add_data none m = m
add_data (some v) m = insert btrfs_send_a_data v m

parse-data :
    (c : CmdAttrs) (o : Option Bytes)
    → All Fits (others c)
    → parse_loop
        (length (entries (others c) ++ encode_data [] o))
        (entries (others c) ++ encode_data [] o)
        []
      ≡ ok (add_data o (insert_all (others c) []))
unfolding add_data encode_data
parse-data c none h = parse-others c [] h ∙ unfold parse_loop in refl
parse-data c (some v) h =
    parse-others c (put_uint 2 btrfs_send_a_data ++ v) h
    ∙ parse_step _ (insert_all (others c) []) (read_attribute-data v)
    ∙ unfold parse_loop in refl

lookup-decoded :
    (c : CmdAttrs) (j : ℕ)
    → NodupKeys c
    → lookup j (add_data (lookup btrfs_send_a_data c) (insert_all (others c) [])) ≡ lookup j c
unfolding add_data or_else lookup
lookup-decoded c j u = elim (Option-cases (lookup btrfs_send_a_data c)) [
  | inl e ↦ rw e (ground (arith, lookup-others j c, inserted))
  | inr (v, e) ↦ rw e (
      ground (
        arith,
        lookup-others j c,
        inserted,
        lookup-insert btrfs_send_a_data j v (insert_all (others c) []),
      ))
]
  where
    inserted : lookup j (insert_all (others c) []) ≡ or_else (lookup j (others c)) none
    inserted = lookup-insert_all j (others c) [] (others-NodupKeys c u)

-- For attributes with distinct keys, whose numbers and (but for the data) lengths fit 16 bits, the
-- attribute loop of the scanner on what Encode writes gives a map with the same value at each key.
pub parse_attrs-encode :
    (c : CmdAttrs)
    → NodupKeys c
    → All Fits (others c)
    → (c' : CmdAttrs) × (parse_attrs (encode c) ≡ ok c') × SameMap c' c
unfolding parse_attrs data_part
parse_attrs-encode c u h = (
  add_data (lookup btrfs_send_a_data c) (insert_all (others c) []),
  rw (encode-entries c) (parse-data c (lookup btrfs_send_a_data c) h),
  λ j. lookup-decoded c j u,
)
