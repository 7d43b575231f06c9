-- ===== src/Sendstream/Crc32/Detect.antt =====
-- The checksum of pkg/sendstream/crc32.go and a byte that was changed.
use Prim.Native.Nat.{bit_xor}
use btrsync.Common.{
  ℕ, zero, suc, ◌*◌, ◌/◌, ◌^◌, ◌≤◌, ◌<◌, ◌≡◌, ◌≢◌, refl, ap, sym, ◌∙◌, arith, [], ◌∷◌, ◌++◌, All,
}
use btrsync.Common.Bytes.{Bytes, IsByte}
use btrsync.Common.Bits.{
  bit_xor_assoc, bit_xor_comm, bit_xor_self, bit_xor-lt, bit_xor_disjoint, zero-bit_xor,
}
use btrsync.Sendstream.Crc32.{btrfs_crc32c, crc_step}
use btrsync.Sendstream.Crc32.Table.{crc_bit, crc_bits, crc_step-crc_bits, crc_step-lt}

-- Adding the same word is one to one.
bit_xor_left : (c a b : ℕ) → bit_xor c a ≡ bit_xor c b → a ≡ b
bit_xor_left c a b e = sym (undo a) ∙ ap (bit_xor c) e ∙ undo b
  where
    undo : (x : ℕ) → bit_xor c (bit_xor c x) ≡ x
    undo x = sym (bit_xor_assoc c c x) ∙ rw (bit_xor_self c) (zero-bit_xor x)

bit_xor_right : (c a b : ℕ) → bit_xor a c ≡ bit_xor b c → a ≡ b
bit_xor_right c a b e = bit_xor_left c a b (bit_xor_comm c a ∙ e ∙ bit_xor_comm b c)

-- The polynomial sets the highest bit.
high_bit : (a : ℕ) → a < 2 ^ 31 → 2 ^ 31 ≤ bit_xor a 0x82f6_3b78
high_bit a h =
    let split : bit_xor 0x02f6_3b78 (1 * 2 ^ 31) ≡ 0x82f6_3b78 = refl in
    let moved : bit_xor a 0x82f6_3b78 ≡ bit_xor (bit_xor a 0x02f6_3b78) (1 * 2 ^ 31) =
      sym (bit_xor_assoc a 0x02f6_3b78 (1 * 2 ^ 31)) in
    omega (
      arith,
      moved,
      bit_xor_disjoint 31 (bit_xor a 0x02f6_3b78) 1 (bit_xor-lt 31 a 0x02f6_3b78 h (omega arith)),
    )

crc_bit-injective : (a b : ℕ) → a < 2 ^ 32 → b < 2 ^ 32 → crc_bit a ≡ crc_bit b → a ≡ b
unfolding crc_bit
crc_bit-injective a b h k e = ground (
  arith,
  high_bit (a / 2) (omega arith),
  high_bit (b / 2) (omega arith),
  bit_xor_right 0x82f6_3b78 (a / 2) (b / 2),
)

crc_bit-lt : (a : ℕ) → a < 2 ^ 32 → crc_bit a < 2 ^ 32
unfolding crc_bit
crc_bit-lt a h = ground (arith, bit_xor-lt 32 (a / 2) 0x82f6_3b78)

crc_bits-injective : (n a b : ℕ) → a < 2 ^ 32 → b < 2 ^ 32 → crc_bits n a ≡ crc_bits n b → a ≡ b
unfolding crc_bits
crc_bits-injective zero a b h k e = e
crc_bits-injective (suc n) a b h k e =
    crc_bit-injective a b h k
      (crc_bits-injective n (crc_bit a) (crc_bit b) (crc_bit-lt a h) (crc_bit-lt b k) e)

-- A step is one to one in the running checksum, and in the byte.
crc_step-injective :
    (c d x : ℕ) → c < 2 ^ 32 → d < 2 ^ 32 → x < 256 → crc_step c x ≡ crc_step d x → c ≡ d
crc_step-injective c d x h k l e = bit_xor_right x c d (
    crc_bits-injective 8 (bit_xor c x) (bit_xor d x) (bit_xor-lt 32 c x h (omega arith))
      (bit_xor-lt 32 d x k (omega arith))
      (sym (crc_step-crc_bits c x l) ∙ e ∙ crc_step-crc_bits d x l))

crc_step-byte : (c x y : ℕ) → c < 2 ^ 32 → x < 256 → y < 256 → crc_step c x ≡ crc_step c y → x ≡ y
crc_step-byte c x y h k l e = bit_xor_left c x y (
    crc_bits-injective 8 (bit_xor c x) (bit_xor c y) (bit_xor-lt 32 c x h (omega arith))
      (bit_xor-lt 32 c y h (omega arith))
      (sym (crc_step-crc_bits c x k) ∙ e ∙ crc_step-crc_bits c y l))

btrfs_crc32c-injective :
    (c d : ℕ) (rest : Bytes)
    → c < 2 ^ 32
    → d < 2 ^ 32
    → All IsByte rest
    → btrfs_crc32c c rest ≡ btrfs_crc32c d rest
    → c ≡ d
unfolding btrfs_crc32c
btrfs_crc32c-injective c d [] h k v e = e
btrfs_crc32c-injective c d (x ∷ rest) h k (vx, v) e = crc_step-injective c d x h k vx (
    btrfs_crc32c-injective (crc_step c x) (crc_step d x) rest (crc_step-lt c x h vx)
      (crc_step-lt d x k vx) v e)

-- Byte strings that differ in one byte have different checksums, from any 32-bit seed.
pub btrfs_crc32c-one_byte :
    (seed : ℕ) (before : Bytes) (x y : ℕ) (rest : Bytes)
    → seed < 2 ^ 32
    → All IsByte before
    → IsByte x
    → IsByte y
    → All IsByte rest
    → x ≢ y
    → btrfs_crc32c seed (before ++ x ∷ rest) ≢ btrfs_crc32c seed (before ++ y ∷ rest)
unfolding btrfs_crc32c
btrfs_crc32c-one_byte seed [] x y rest h vb vx vy v ne e = ne (
    crc_step-byte seed x y h vx vy (
      btrfs_crc32c-injective (crc_step seed x) (crc_step seed y) rest (crc_step-lt seed x h vx)
        (crc_step-lt seed y h vy) v e))
btrfs_crc32c-one_byte seed (b ∷ before) x y rest h (vb, vs) vx vy v ne e =
    btrfs_crc32c-one_byte (crc_step seed b) before x y rest (crc_step-lt seed b h vb) vs vx vy v ne
      e
