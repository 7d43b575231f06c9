-- ===== src/Btrfs/EncodedWrite.antt =====
-- `EncodedWriteOp` and `Decompress` of pkg/btrfs/encoded_write.go.
use btrsync.Common.{ℕ, Option, none, some, length, ◌==◌, ◌&&◌, leb, if◌then◌else◌}
use btrsync.Common.Bytes.{Bytes}

pub record EncodedWriteOp : Type 0 where
  pub offset : ℕ
  pub data' : Bytes
  pub unencoded_file_length : ℕ
  pub unencoded_length : ℕ
  pub unencoded_offset : ℕ
  pub compression : ℕ
  pub encryption : ℕ

-- The decompressors of other packages (zlib, lzo, zstd); `none` is an error.
pub record Codecs : Type 0 where
  pub zlib : Bytes → Option Bytes
  pub lzo : Bytes → ℕ → ℕ → Option Bytes
  pub zstd : Bytes → Option Bytes

abbrev pub compression_none : ℕ
compression_none = 0x0

abbrev pub compression_zlib : ℕ
compression_zlib = 0x1

abbrev pub compression_zstd : ℕ
compression_zstd = 0x2

abbrev pub compression_lzo4k : ℕ
compression_lzo4k = 0x3

abbrev pub compression_lzo64k : ℕ
compression_lzo64k = 0x7

-- `Decompress`: the five LZO types are the numbers from 3 to 7.
unfoldable pub decompress : Codecs → EncodedWriteOp → Option Bytes
decompress codecs e =
    if e.compression == compression_none
    then some e.data'
    else if e.compression == compression_zlib
    then codecs.zlib e.data'
    else if leb compression_lzo4k e.compression && leb e.compression compression_lzo64k
    then codecs.lzo e.data' (length e.data') e.unencoded_length
    else if e.compression == compression_zstd
    then codecs.zstd e.data'
    else none
