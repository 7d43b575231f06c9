-- ===== src/Sendstream/Headers.antt =====
-- The stream header and the command header, as `encoding/binary` lays them out, and the checksum
-- of a command (pkg/sendstream/commands.go, pkg/sendstream/crc32.go).
use btrsync.Common.{
  ℕ, ◌^◌, ◌<◌, ◌≡◌, refl, arith, Bool, ◌&&◌, [], ◌∷◌, ◌++◌, take, drop, length, All, ◌==◌,
}
use btrsync.Common.Bytes.{Bytes, IsByte, put_uint, le_value, le_value-put_uint}
use btrsync.Sendstream.Commands.{SendCommand}
use btrsync.Sendstream.Crc32.{btrfs_crc32c}

-- "btrfs-stream\0"
abbrev pub btrfs_send_stream_magic : Bytes
btrfs_send_stream_magic =
    b'b' ∷ b't' ∷ b'r' ∷ b'f' ∷ b's' ∷ b'-' ∷ b's' ∷ b't' ∷ b'r' ∷ b'e' ∷ b'a' ∷ b'm' ∷ 0 ∷ []

abbrev pub btrfs_send_stream_version : ℕ
btrfs_send_stream_version = 2

pub record StreamHeader : Type 0 where
  pub magic : Bytes
  pub version : ℕ

pub record CmdHeader : Type 0 where
  pub len : ℕ
  pub cmd : SendCommand
  pub crc : ℕ

-- The zero value, and the test for it.
abbrev pub zero_cmd_header : CmdHeader
zero_cmd_header = record { len = 0; cmd = 0; crc = 0 }

unfoldable pub is_zero : CmdHeader → Bool
is_zero c = c.len == 0 && c.cmd == 0 && c.crc == 0

-- `binary.Write` and `binary.Read` of the two structs: 17 and 10 bytes.
unfoldable pub put_stream_header : StreamHeader → Bytes
put_stream_header h = h.magic ++ put_uint 4 h.version

unfoldable pub get_stream_header : Bytes → StreamHeader
get_stream_header b = record { magic = take 13 b; version = le_value (take 4 (drop 13 b)) }

unfoldable pub put_cmd_header : CmdHeader → Bytes
put_cmd_header h = put_uint 4 h.len ++ (put_uint 2 h.cmd ++ put_uint 4 h.crc)

unfoldable pub get_cmd_header : Bytes → CmdHeader
get_cmd_header b = record {
  len = le_value (take 4 b);
  cmd = le_value (take 2 (drop 4 b));
  crc = le_value (take 4 (drop 6 b));
}

-- `calculateCrc32`: over the header and the attributes. Writes to a `bytes.Buffer` do not fail.
unfoldable pub calculate_crc32 : CmdHeader → Bytes → ℕ
calculate_crc32 hdr bytes = btrfs_crc32c 0 (put_cmd_header hdr ++ bytes)

-- `validateCrc32`: the checksum is computed with its own field set to 0.
unfoldable pub validate_crc32 : CmdHeader → Bytes → Bool
validate_crc32 hdr bytes = hdr.crc == calculate_crc32 (record hdr { crc = 0 }) bytes

pub length-put_cmd_header : (h : CmdHeader) → length (put_cmd_header h) ≡ 10
unfolding put_cmd_header put_uint
length-put_cmd_header h = refl

-- A header whose fields fit their widths is read back.
pub record IsCmdHeader (h : CmdHeader) : Type 0 where
  pub len_fits : h.len < 2 ^ 32
  pub cmd_fits : h.cmd < 2 ^ 16
  pub crc_fits : h.crc < 2 ^ 32

pub get_cmd_header-put_cmd_header :
    (h : CmdHeader) → IsCmdHeader h → get_cmd_header (put_cmd_header h) ≡ h
unfolding get_cmd_header put_cmd_header put_uint
get_cmd_header-put_cmd_header h v = λ i. record {
  len = le_value-put_uint 4 h.len v.len_fits i;
  cmd = le_value-put_uint 2 h.cmd v.cmd_fits i;
  crc = le_value-put_uint 4 h.crc v.crc_fits i;
}

pub put_cmd_header-IsByte : (h : CmdHeader) → All IsByte (put_cmd_header h)
unfolding put_cmd_header put_uint
put_cmd_header-IsByte h = omega arith
