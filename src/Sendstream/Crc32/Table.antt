-- ===== src/Sendstream/Crc32/Table.antt =====
-- The table-driven checksum against the bit-by-bit definition of CRC-32C.
use Prim.Native.Nat.{bit_xor}
use native.Mathlib.Nat.{pow-suc}
use btrsync.Common.{
  ℕ, zero, suc, ◌*◌, ◌/◌, ◌%◌, ◌^◌, ◌<◌, ◌≡◌, refl, ap, sym, ◌∙◌, arith, Bool, true, ◌&&◌, [], ◌∷◌,
  get_or, ◌==◌, ltb, ==_iff, All, if◌then◌else◌,
}
use btrsync.Common.Bytes.{Bytes, IsByte}
use btrsync.Common.Bits.{
  bit_xor_half, bit_xor_parity, bit_xor_assoc, bit_xor_comm, bit_xor_self, bit_xor-lt,
  bit_xor_disjoint, zero-bit_xor,
}
use btrsync.Sendstream.Crc32.{crc32q, crc_step, btrfs_crc32c}

-- One bit of CRC-32C: shift right, and where a one falls out, add the reversed polynomial.
unfoldable pub crc_bit : ℕ → ℕ
crc_bit c = if c % 2 == 0 then c / 2 else bit_xor (c / 2) 0x82f6_3b78

unfoldable pub crc_bits : ℕ → ℕ → ℕ
crc_bits zero c = c
crc_bits (suc n) c = crc_bits n (crc_bit c)

-- A byte at a time, and a byte string.
pub crc32c : ℕ → Bytes → ℕ
crc32c crc [] = crc
crc32c crc (b ∷ bytes) = crc32c (crc_bits 8 (bit_xor crc b)) bytes

-- A test that holds for each number under a bound.
holds_under : (ℕ → Bool) → ℕ → Bool
holds_under test zero = true
holds_under test (suc bound) = holds_under test bound && test bound

holds_under-at :
    (test : ℕ → Bool) (bound : ℕ) {i : ℕ}
    → holds_under test bound ≡ true
    → i < bound
    → test i ≡ true
unfolding holds_under
holds_under-at test zero all below = absurd (omega arith)
holds_under-at test (suc bound) {i} all below = ground (arith, holds_under-at test bound {i = i})

table_holds : holds_under (λ i. get_or crc32q i 0 == crc_bits 8 i) 256 ≡ true
unfolding holds_under crc_bits crc_bit crc32q
table_holds = refl

-- Each of the 256 entries of the table is eight steps of the bitwise division of its index.
pub crc32q-entry : (i : ℕ) → i < 256 → get_or crc32q i 0 ≡ crc_bits 8 i
crc32q-entry i h = (==_iff _ _).0 (holds_under-at _ 256 table_holds h)

entries_fit : holds_under (λ i. ltb (get_or crc32q i 0) (2 ^ 32)) 256 ≡ true
unfolding holds_under crc32q
entries_fit = refl

entry-lt : (i : ℕ) → i < 256 → get_or crc32q i 0 < 2 ^ 32
entry-lt i h =
    ground (arith, holds_under-at (λ i. ltb (get_or crc32q i 0) (2 ^ 32)) 256 entries_fit h)

bit_xor_swap : (a b p : ℕ) → bit_xor (bit_xor a b) p ≡ bit_xor (bit_xor a p) b
bit_xor_swap a b p =
    bit_xor_assoc a b p ∙ ap (bit_xor a) (bit_xor_comm b p) ∙ sym (bit_xor_assoc a p b)

bit_xor_cancel : (a b p : ℕ) → bit_xor (bit_xor a p) (bit_xor b p) ≡ bit_xor a b
bit_xor_cancel a b p =
    bit_xor_assoc a p (bit_xor b p)
    ∙ ap (bit_xor a) (
        ap (bit_xor p) (bit_xor_comm b p)
        ∙ sym (bit_xor_assoc p p b)
        ∙ rw bit_xor_self (zero-bit_xor b))

crc_bit-bit_xor : (a b : ℕ) → crc_bit (bit_xor a b) ≡ bit_xor (crc_bit a) (crc_bit b)
unfolding crc_bit
crc_bit-bit_xor a b = ground (
  arith,
  bit_xor_half a b,
  bit_xor_parity a b,
  bit_xor_cancel (a / 2) (b / 2) 0x82f6_3b78,
  bit_xor_swap (a / 2) (b / 2) 0x82f6_3b78,
  bit_xor_assoc (a / 2) (b / 2) 0x82f6_3b78,
)

crc_bits-bit_xor : (n a b : ℕ) → crc_bits n (bit_xor a b) ≡ bit_xor (crc_bits n a) (crc_bits n b)
unfolding crc_bits
crc_bits-bit_xor zero a b = refl
crc_bits-bit_xor (suc n) a b =
    ap (crc_bits n) (crc_bit-bit_xor a b) ∙ crc_bits-bit_xor n (crc_bit a) (crc_bit b)

-- Zeros fall out of the low end unchanged.
crc_bits-shifted : (n q : ℕ) → crc_bits n (q * 2 ^ n) ≡ q
unfolding crc_bits crc_bit
crc_bits-shifted zero q = omega arith
crc_bits-shifted (suc n) q =
    let double : q * 2 ^ suc n ≡ q * 2 ^ n * 2 =
      omega (arith, ap (λ (t : ℕ). q * t) (pow-suc 2 n)) in
    let step : crc_bit (q * 2 ^ n * 2) ≡ q * 2 ^ n = ground arith in
    rw (double, step) (crc_bits-shifted n q)

-- The low byte and the rest of a running checksum, after a byte is added.
mixed :
    (crc b : ℕ) → b < 256 → bit_xor crc b ≡ bit_xor (bit_xor (crc % 256) b) (crc / 2 ^ 8 * 2 ^ 8)
mixed crc b h = ap (λ t. bit_xor t b) whole ∙ bit_xor_swap (crc % 256) (crc / 2 ^ 8 * 2 ^ 8) b
  where
    whole : crc ≡ bit_xor (crc % 256) (crc / 2 ^ 8 * 2 ^ 8)
    whole = omega (arith, bit_xor_disjoint 8 (crc % 256) (crc / 2 ^ 8) (omega arith))

pub crc_step-crc_bits : (crc b : ℕ) → b < 256 → crc_step crc b ≡ crc_bits 8 (bit_xor crc b)
unfolding crc_step
crc_step-crc_bits crc b h = sym (
    ap (crc_bits 8) (mixed crc b h)
    ∙ crc_bits-bit_xor 8 (bit_xor (crc % 256) b) (crc / 2 ^ 8 * 2 ^ 8)
    ∙ rw (crc_bits-shifted 8 (crc / 2 ^ 8)) (
        ap (λ t. bit_xor t (crc / 2 ^ 8))
          (sym (crc32q-entry _ (bit_xor-lt 8 (crc % 256) b (omega arith) h)))))

-- On any bytes and seed, the table-driven checksum is CRC-32C computed bit by bit with the
-- reversed polynomial 0x82f63b78.
pub btrfs_crc32c-crc32c :
    (seed : ℕ) (bytes : Bytes) → All IsByte bytes → btrfs_crc32c seed bytes ≡ crc32c seed bytes
unfolding btrfs_crc32c crc32c
btrfs_crc32c-crc32c seed [] h = refl
btrfs_crc32c-crc32c seed (b ∷ bytes) (hb, hs) =
    ap (λ c. btrfs_crc32c c bytes) (crc_step-crc_bits seed b hb)
    ∙ btrfs_crc32c-crc32c (crc_bits 8 (bit_xor seed b)) bytes hs

pub crc_step-lt : (crc b : ℕ) → crc < 2 ^ 32 → b < 256 → crc_step crc b < 2 ^ 32
unfolding crc_step
crc_step-lt crc b h hb =
    bit_xor-lt 32 _ _ (entry-lt _ (bit_xor-lt 8 (crc % 256) b (omega arith) hb)) (omega arith)

pub btrfs_crc32c-lt :
    (seed : ℕ) (bytes : Bytes) → seed < 2 ^ 32 → All IsByte bytes → btrfs_crc32c seed bytes < 2 ^ 32
unfolding btrfs_crc32c
btrfs_crc32c-lt seed [] h a = h
btrfs_crc32c-lt seed (b ∷ bytes) h (hb, hs) =
    btrfs_crc32c-lt (crc_step seed b) bytes (crc_step-lt seed b h hb) hs
