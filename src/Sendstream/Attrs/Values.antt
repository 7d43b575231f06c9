-- ===== src/Sendstream/Attrs/Values.antt =====
-- The values of attributes: UUIDs, times and numbers as bytes.
use btrsync.Common.{ℕ, ◌+◌, ◌/◌, ◌%◌, ◌^◌, [], ◌∷◌, ◌++◌, take, drop, length, leb, if◌then◌else◌}
use btrsync.Common.Bytes.{Bytes, put_uint, le_value}
use btrsync.Common.Outcome.{Outcome, ok, panic, ◌>>=◌}
use btrsync.Sendstream.Scanner.{Error, read}

-- `uuid.UUID` is an array of 16 bytes.
abbrev pub Uuid : Type 0
Uuid = Bytes

-- `time.Time`, by what the stream carries of it: `Unix()` as a 64-bit pattern, and `Nanosecond()`.
pub record Time : Type 0 where
  pub unix : ℕ
  pub nanosecond : ℕ

-- `BtrfsTimespec`
pub record BtrfsTimespec : Type 0 where
  pub sec : ℕ
  pub nsec : ℕ

-- `btrfs.BtrfsTimespec{Sec: uint64(t.Unix()), Nsec: uint32(t.Nanosecond())}`
unfoldable pub timespec : Time → BtrfsTimespec
timespec t = record { sec = t.unix % 2 ^ 64; nsec = t.nanosecond % 2 ^ 32 }

-- `BtrfsTimespec.Time`: `time.Unix` carries whole seconds over from the nanoseconds.
unfoldable pub time : BtrfsTimespec → Time
time ts = record {
  unix = (ts.sec + ts.nsec / 1_000_000_000) % 2 ^ 64;
  nanosecond = ts.nsec % 1_000_000_000;
}

-- `binary.Write` and `binary.Read` of a `BtrfsTimespec`: 12 bytes.
unfoldable pub put_timespec : BtrfsTimespec → Bytes
put_timespec ts = put_uint 8 ts.sec ++ put_uint 4 ts.nsec

unfoldable pub read_timespec : Bytes → Outcome Error Time
read_timespec d = (read 12 d).0 >>= λ b.
    ok (time (record { sec = le_value (take 8 b); nsec = le_value (take 4 (drop 8 b)) }))

-- `binary.LittleEndian.Uint32` and `Uint64`: they look at the first bytes only.
unfoldable pub get_uint : {E : Type 0} → ℕ → Bytes → Outcome E ℕ
get_uint n d = if leb n (length d) then ok (le_value (take n d)) else panic

-- `d[0]`
unfoldable pub first_byte : {E : Type 0} → Bytes → Outcome E ℕ
first_byte [] = panic
first_byte (b ∷ d) = ok b
