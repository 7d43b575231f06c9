-- ===== src/Sendstream/Attrs.antt =====
-- `CmdAttrs` of pkg/sendstream/commands.go: the attributes of one command, and their encoding.
pub mod Encoding
pub mod Values
pub mod Setters
pub mod Getters
pub mod Build
use btrsync.Common.{
  ℕ, ◌+◌, ◌%◌, ◌^◌, Option, none, some, List, [], ◌∷◌, ◌++◌, length, ◌==◌, if◌then◌else◌,
}
use btrsync.Common.Bytes.{Bytes, put_uint}
use btrsync.Common.Dict.{lookup}
use btrsync.Sendstream.Attributes.{SendAttribute, btrfs_send_a_data}

-- `map[SendAttribute][]byte`: its entries, in the order of one iteration.
abbrev pub CmdAttrs : Type 0
CmdAttrs = List (SendAttribute × Bytes)

abbrev pub new_cmd_attrs : CmdAttrs
new_cmd_attrs = []

-- `c[k]`: a missing key gives the nil slice, which is empty.
unfoldable pub index : CmdAttrs → SendAttribute → Bytes
index c k = elim (lookup k c) [ none ↦ [] | some v ↦ v ]

-- `size += n` on a `uint32`.
unfoldable pub add_u32 : ℕ → ℕ → ℕ
add_u32 size n = (size + n) % 2 ^ 32

unfoldable pub binary_size_loop : ℕ → CmdAttrs → ℕ
binary_size_loop size [] = size
binary_size_loop size ((k, v) ∷ c) =
    let size' = add_u32 size 2 in
    let size'' = if k == btrfs_send_a_data then size' else add_u32 size' 2 in
    binary_size_loop (add_u32 size'' (length v % 2 ^ 32)) c

-- `BinarySize`
unfoldable pub binary_size : CmdAttrs → ℕ
unfolding binary_size_loop add_u32
binary_size c = binary_size_loop 0 c

-- The first loop of `Encode`: all attributes but the data, each with its length in 16 bits.
unfoldable pub encode_loop : Bytes → CmdAttrs → Bytes
encode_loop buf [] = buf
encode_loop buf ((k, v) ∷ c) =
    encode_loop
      (if k == btrfs_send_a_data
        then buf
        else buf ++ (put_uint 2 k ++ (put_uint 2 (length v) ++ v)))
      c

-- The second part of `Encode`: the data, with no length.
unfoldable pub encode_data : Bytes → Option Bytes → Bytes
encode_data buf none = buf
encode_data buf (some v) = buf ++ (put_uint 2 btrfs_send_a_data ++ v)

-- `Encode`. Writes to a `bytes.Buffer` do not fail.
unfoldable pub encode : CmdAttrs → Bytes
unfolding encode_loop encode_data
encode c = encode_data (encode_loop [] c) (lookup btrfs_send_a_data c)
