-- ===== src/Sendstream/Attrs/Encoding.antt =====
-- What `Encode` writes, attribute by attribute, and how long it is.
use btrsync.Common.{
  ℕ, ◌+◌, ◌%◌, ◌^◌, ◌<◌, ◌≡◌, refl, sym, ◌∙◌, arith, inl, inr, Option, none, some, [], ◌∷◌, ◌++◌,
  append-nil, append_assoc, length, length-append, ◌==◌, if◌then◌else◌, Bool-cases,
}
use btrsync.Common.Bytes.{Bytes, put_uint, length-put_uint}
use btrsync.Common.Dict.{lookup, NodupKeys}
use btrsync.Sendstream.Attributes.{SendAttribute, btrfs_send_a_data}
use btrsync.Sendstream.Attrs.{
  CmdAttrs, add_u32, binary_size_loop, binary_size, encode_loop, encode_data, encode,
}

-- One attribute that carries its length.
abbrev pub entry : SendAttribute → Bytes → Bytes
entry k v = put_uint 2 k ++ (put_uint 2 (length v) ++ v)

-- The attributes but the data, and the data alone.
unfoldable pub others : CmdAttrs → CmdAttrs
others [] = []
others ((k, v) ∷ c) = if k == btrfs_send_a_data then others c else (k, v) ∷ others c

unfoldable pub entries : CmdAttrs → Bytes
entries [] = []
entries ((k, v) ∷ c) = entry k v ++ entries c

unfoldable pub data_part : CmdAttrs → Bytes
data_part c = encode_data [] (lookup btrfs_send_a_data c)

encode_loop-entries : (buf : Bytes) (c : CmdAttrs) → encode_loop buf c ≡ buf ++ entries (others c)
unfolding encode_loop others entries
encode_loop-entries buf [] = sym (append-nil buf)
encode_loop-entries buf ((k, v) ∷ c) = elim (Bool-cases (k == btrfs_send_a_data)) [
  | inl e ↦ rw e (encode_loop-entries buf c)
  | inr e ↦ rw e (encode_loop-entries (buf ++ entry k v) c ∙ append_assoc buf (entry k v) _)
]

-- `Encode` writes the other attributes in order, and the data behind them.
pub encode-entries : (c : CmdAttrs) → encode c ≡ entries (others c) ++ data_part c
unfolding encode data_part
encode-entries c =
    rw (encode_loop-entries [] c) (join (entries (others c)) (lookup btrfs_send_a_data c))
  where
    join : (buf : Bytes) (o : Option Bytes) → encode_data buf o ≡ buf ++ encode_data [] o
    join buf none = sym (append-nil buf)
    join buf (some v) = refl

pub length-entry : (k : SendAttribute) (v : Bytes) → length (entry k v) ≡ length v + 4
length-entry k v = omega (
  arith,
  length-append {0} (put_uint 2 k) (put_uint 2 (length v) ++ v),
  length-append {0} (put_uint 2 (length v)) v,
  length-put_uint 2 k,
  length-put_uint 2 (length v),
)

total : CmdAttrs → ℕ
total [] = 0
total ((k, v) ∷ c) = (if k == btrfs_send_a_data then 2 else 4) + (length v + total c)

binary_size_loop-total :
    (c : CmdAttrs) (size : ℕ) → size < 2 ^ 32 → binary_size_loop size c ≡ (size + total c) % 2 ^ 32
unfolding binary_size_loop add_u32 total
binary_size_loop-total [] size h = omega arith
binary_size_loop-total ((k, v) ∷ c) size h = binary_size_loop-total c _ (omega arith) ∙ ground arith

total-length :
    (c : CmdAttrs) → NodupKeys c → total c ≡ length (entries (others c)) + length (data_part c)
unfolding total others entries data_part encode_data lookup
total-length [] u = refl
total-length ((k, v) ∷ c) (absent, u) = ground (
  arith,
  total-length c u,
  length-entry k v,
  length-append (entry k v) (entries (others c)),
  length-append (put_uint 2 btrfs_send_a_data) v,
  length-put_uint 2 btrfs_send_a_data,
)

-- For attributes with distinct keys, BinarySize is the length of what Encode writes, modulo 2^32.
pub binary_size-encode : (c : CmdAttrs) → NodupKeys c → binary_size c ≡ length (encode c) % 2 ^ 32
unfolding binary_size
binary_size-encode c u = rw encode-entries (
    omega (
      arith,
      binary_size_loop-total c 0 (omega arith),
      total-length c u,
      length-append {0} (entries (others c)) (data_part c),
    ))
