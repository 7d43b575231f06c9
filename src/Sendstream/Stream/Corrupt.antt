-- ===== src/Sendstream/Stream/Corrupt.antt =====
-- `ReadCommand` of pkg/sendstream/scanner.go on a written command in which one byte was changed.
use btrsync.Common.{
  ℕ, ◌≡◌, ◌≢◌, ap, sym, ◌∙◌, arith, true, false, [], ◌∷◌, ◌++◌, append_assoc, length, length-append,
  All, All-append,
}
use mathlib.Core.Path.{subst}
use btrsync.Common.Bytes.{Bytes, IsByte}
use btrsync.Common.Outcome.{err}
use btrsync.Sendstream.Attrs.{CmdAttrs, encode}
use btrsync.Sendstream.Commands.{SendCommand}
use btrsync.Sendstream.Crc32.{btrfs_crc32c}
use btrsync.Sendstream.Crc32.Detect.{btrfs_crc32c-one_byte}
use btrsync.Sendstream.Headers.{
  CmdHeader, put_cmd_header, calculate_crc32, validate_crc32, length-put_cmd_header,
  get_cmd_header-put_cmd_header, put_cmd_header-IsByte,
}
use btrsync.Sendstream.Scanner.{
  Scanner, invalid_command_checksum, read_command, read_command_header, read_command_attributes,
  check_attrs,
}
use btrsync.Sendstream.Scanner.Parse.{read-append}
use btrsync.Sendstream.Stream.{
  IsCommand, encode-IsByte, command_header-IsCmdHeader, command_header-len, validate_crc32-encode,
}
use btrsync.Sendstream.Writer.{command_header}

All-before : (xs ys : Bytes) → All IsByte (xs ++ ys) → All IsByte xs
All-before [] ys h = tt
All-before (x ∷ xs) ys (hx, h) = (hx, All-before xs ys h)

All-after : (xs ys : Bytes) → All IsByte (xs ++ ys) → All IsByte ys
All-after [] ys h = h
All-after (x ∷ xs) ys (hx, h) = All-after xs ys h

calculate_crc32-one_byte :
    (hdr : CmdHeader) (before : Bytes) (x y : ℕ) (rest : Bytes)
    → All IsByte (before ++ x ∷ rest)
    → IsByte y
    → x ≢ y
    → calculate_crc32 hdr (before ++ x ∷ rest) ≢ calculate_crc32 hdr (before ++ y ∷ rest)
unfolding calculate_crc32
calculate_crc32-one_byte hdr before x y rest h hy ne e =
    let head = put_cmd_header hdr in
    let (hx, hrest) : All IsByte (x ∷ rest) = All-after before (x ∷ rest) h in
    btrfs_crc32c-one_byte 0 (head ++ before) x y rest (omega arith)
      (All-append IsByte head before (put_cmd_header-IsByte hdr) (All-before before (x ∷ rest) h))
      hx hy hrest ne
      (ap (btrfs_crc32c 0) (append_assoc head before (x ∷ rest))
        ∙ e
        ∙ ap (btrfs_crc32c 0) (sym (append_assoc head before (y ∷ rest))))

validate_crc32-one_byte :
    (hdr : CmdHeader) (before : Bytes) (x y : ℕ) (rest : Bytes)
    → All IsByte (before ++ x ∷ rest)
    → IsByte y
    → x ≢ y
    → validate_crc32 hdr (before ++ x ∷ rest) ≡ true
    → validate_crc32 hdr (before ++ y ∷ rest) ≡ false
unfolding validate_crc32
validate_crc32-one_byte hdr before x y rest h hy ne valid =
    ground (arith, calculate_crc32-one_byte (record hdr { crc = 0 }) before x y rest h hy ne)

-- A scanner that checks checksums and reads a written command of which one byte of the encoded
-- attributes was changed gives ErrInvalidCommandChecksum, and is behind the command. The command
-- is one that the format can carry.
pub read_command-corrupted :
    (c : SendCommand × CmdAttrs) (before : Bytes) (x y : ℕ) (rest more : Bytes) (s : Scanner)
    → IsCommand c
    → encode c.1 ≡ before ++ x ∷ rest
    → IsByte y
    → x ≢ y
    → s.ignore_checksums ≡ false
    → s.reader ≡ put_cmd_header (command_header c.0 c.1) ++ ((before ++ y ∷ rest) ++ more)
    → read_command s ≡ (err invalid_command_checksum, record s { reader = more })
unfolding read_command read_command_header read_command_attributes check_attrs
read_command-corrupted c before x y rest more s v e hy ne strict input =
    let h = command_header c.0 c.1 in
    let bytes : All IsByte (before ++ x ∷ rest) =
      subst (All IsByte) e (encode-IsByte c.1 v.bytes) in
    let valid : validate_crc32 h (before ++ x ∷ rest) ≡ true =
      ap (validate_crc32 h) (sym e) ∙ validate_crc32-encode c v in
    let size : length (before ++ y ∷ rest) ≡ h.len = omega (
      arith,
      ap (length {A = ℕ}) e,
      command_header-len c v,
      length-append {0} before (x ∷ rest),
      length-append {0} before (y ∷ rest),
    ) in
    rw (
      input,
      read-append 10 (put_cmd_header h) ((before ++ y ∷ rest) ++ more) (length-put_cmd_header h),
      get_cmd_header-put_cmd_header h (command_header-IsCmdHeader c v),
      read-append h.len (before ++ y ∷ rest) more size,
      strict,
      validate_crc32-one_byte h before x y rest bytes hy ne valid,
    )
