-- ===== src/Sendstream/Scanner.antt =====
-- `Scanner` of pkg/sendstream/scanner.go. The `io.Reader` is the bytes that it has still to give;
-- behind them it reports `io.EOF`.
pub mod Parse
pub mod RoundTrip
pub mod Progress
use btrsync.Common.{
  ℕ, zero, suc, Bool, true, false, ◌&&◌, ◌||◌, Option, none, some, List, [], ◌∷◌, ◌++◌, length,
  take, drop, leb, ◌==◌, if◌then◌else◌,
}
use btrsync.Common.Bytes.{Bytes, le_value, bytes_eq}
use btrsync.Common.Dict.{insert}
use btrsync.Common.Outcome.{Outcome, ok, err, panic, stuck, ◌>>=◌, bind_state}
use btrsync.Sendstream.Attributes.{SendAttribute, btrfs_send_a_data}
use btrsync.Sendstream.Attrs.{CmdAttrs, new_cmd_attrs}
use btrsync.Sendstream.Commands.{btrfs_send_c_end}
use btrsync.Sendstream.Headers.{
  StreamHeader, CmdHeader, zero_cmd_header, is_zero, get_stream_header, get_cmd_header,
  validate_crc32, btrfs_send_stream_magic, btrfs_send_stream_version,
}

-- The errors of pkg/sendstream/errors.go, and the two of package `io` that a read gives.
pub data Error : Type 0 where
  eof unexpected_eof : Error
  invalid_magic invalid_version header_already_parsed invalid_command_checksum : Error

pub record Scanner : Type 0 where
  pub reader : Bytes
  pub ignore_checksums : Bool
  pub header_parsed : Bool
  pub scan_err : Option Error
  pub cur_hdr : CmdHeader
  pub cur_attrs : CmdAttrs

unfoldable pub new_scanner : Bytes → Bool → Scanner
new_scanner r ignore = record {
  reader = r;
  ignore_checksums = ignore;
  header_parsed = false;
  scan_err = none;
  cur_hdr = zero_cmd_header;
  cur_attrs = [];
}

-- `binary.Read` of `n` bytes, by `io.ReadFull`: all of them, or an error and nothing left.
unfoldable pub read : ℕ → Bytes → Outcome Error Bytes × Bytes
read n [] = (if n == 0 then ok [] else err eof, [])
read n (b ∷ bs) =
    if leb n (length (b ∷ bs))
    then (ok (take n (b ∷ bs)), drop n (b ∷ bs))
    else (err unexpected_eof, [])

-- The header with the error that was found in it.
unfoldable pub check_header : StreamHeader → Option Error
check_header hdr =
    if bytes_eq hdr.magic btrfs_send_stream_magic
    then if hdr.version == btrfs_send_stream_version then none else some invalid_version
    else some invalid_magic

abbrev pub zero_stream_header : StreamHeader
zero_stream_header = record {
  magic = 0 ∷ 0 ∷ 0 ∷ 0 ∷ 0 ∷ 0 ∷ 0 ∷ 0 ∷ 0 ∷ 0 ∷ 0 ∷ 0 ∷ 0 ∷ [];
  version = 0;
}

unfoldable pub header_result : Outcome Error Bytes → Scanner → StreamHeader × Option Error × Scanner
header_result (ok b) s =
    let hdr = get_stream_header b in (hdr, check_header hdr, record s { header_parsed = true })
header_result (err e) s = (zero_stream_header, some e, s)
-- `read` does nothing else
header_result panic s = (zero_stream_header, none, s)
header_result stuck s = (zero_stream_header, none, s)

-- `readHeader` returns the header also with an error, and marks it as parsed once it was read.
unfoldable pub read_header : Scanner → StreamHeader × Option Error × Scanner
unfolding header_result
read_header s =
    let (bytes, rest) = read 17 s.reader in header_result bytes (record s { reader = rest })

is_header_error : Error → Bool
is_header_error invalid_magic = true
is_header_error invalid_version = true
is_header_error _ = false

-- `ReadHeader`
unfoldable pub read_header_once : Bool → Scanner → Outcome Error StreamHeader × Scanner
unfolding is_header_error
read_header_once validate s =
    if s.header_parsed
    then (err header_already_parsed, s)
    else let (hdr, problem, s') = read_header s in
      elim problem [
        | none ↦ (ok hdr, s')
        | some e ↦
            if is_header_error e then (if validate then err e else ok hdr, s') else (err e, s')
      ]

-- A round of the loop of `readCommandAttributes` on `data[pos:]`: the attribute, its value, and
-- what follows. The slice expression panics where the value would pass the end.
unfoldable pub read_attribute : Bytes → Outcome Error (SendAttribute × Bytes × Bytes)
unfolding read
read_attribute d =
    let (head, after) = read 2 d in
    head >>= λ attr.
    if le_value attr == btrfs_send_a_data
    then ok (le_value attr, after, [])
    else let (size, value) = read 2 after in
      size >>= λ len.
      if leb (le_value len) (length value)
      then ok (le_value attr, take (le_value len) value, drop (le_value len) value)
      else panic

-- The loop, `pos < size` on fuel: each round takes two bytes at least.
unfoldable pub parse_loop : ℕ → Bytes → CmdAttrs → Outcome Error CmdAttrs
parse_loop fuel [] attrs = ok attrs
parse_loop zero (b ∷ bs) attrs = stuck
parse_loop (suc fuel) (b ∷ bs) attrs = do
  (attr, value, rest) ← read_attribute (b ∷ bs)
  parse_loop fuel rest (insert attr value attrs)

unfoldable pub parse_attrs : Bytes → Outcome Error CmdAttrs
unfolding parse_loop read_attribute
parse_attrs d = parse_loop (length d) d new_cmd_attrs

-- What `readCommandAttributes` does with the bytes that it read.
unfoldable pub check_attrs : Bool → CmdHeader → Bytes → Outcome Error CmdAttrs
check_attrs ignore hdr d =
    if ignore || validate_crc32 hdr d then parse_attrs d else err invalid_command_checksum

unfoldable pub read_command_header : Scanner → Outcome Error CmdHeader × Scanner
unfolding read
read_command_header s =
    let (head, rest) = read 10 s.reader in
    (head >>= λ b. ok (get_cmd_header b), record s { reader = rest })

unfoldable pub read_command_attributes : CmdHeader → Scanner → Outcome Error CmdAttrs × Scanner
unfolding read check_attrs
read_command_attributes hdr s =
    let (body, rest) = read hdr.len s.reader in
    (body >>= check_attrs s.ignore_checksums hdr, record s { reader = rest })

-- `ReadCommand`: the header, then the attributes. The header that goes with an error is left out.
unfoldable pub read_command : Scanner → Outcome Error (CmdHeader × CmdAttrs) × Scanner
unfolding read_command_header read_command_attributes
read_command s =
    bind_state (read_command_header s)
      λ hdr s'. bind_state (read_command_attributes hdr s') λ attrs s''. (ok (hdr, attrs), s'')

is_eof : Error → Bool
is_eof eof = true
is_eof _ = false

-- The error that `Scan` keeps: the end of the input right after an END command is none.
unfoldable pub scan_error : CmdHeader → Error → Option Error
unfolding is_eof is_zero
scan_error cur e =
    if is_zero cur then some e else if cur.cmd == btrfs_send_c_end && is_eof e then none else some e

unfoldable pub scan_result :
    Outcome Error (CmdHeader × CmdAttrs) × Scanner → Outcome Error (Bool × Scanner)
scan_result (ok (hdr, attrs), s) = ok (true, record s { cur_hdr = hdr; cur_attrs = attrs })
scan_result (err e, s) = ok (false, record s { scan_err = scan_error s.cur_hdr e })
scan_result (panic, s) = panic
scan_result (stuck, s) = stuck

unfoldable pub scan_header : StreamHeader × Option Error × Scanner → Outcome Error (Bool × Scanner)
unfolding scan_result
scan_header (hdr, some e, s) = ok (false, record s { scan_err = some e })
scan_header (hdr, none, s) = scan_result (read_command s)

-- `Scan`: the result and the scanner; it gives no error itself, but it may panic.
unfoldable pub scan : Scanner → Outcome Error (Bool × Scanner)
unfolding scan_header scan_result
scan s = elim s.scan_err [
  | some e ↦ ok (false, s)
  | none ↦ if s.header_parsed then scan_result (read_command s) else scan_header (read_header s)
]

-- `Command` and `Err`.
unfoldable pub command : Scanner → CmdHeader × CmdAttrs
command s = (s.cur_hdr, s.cur_attrs)

unfoldable pub scanner_err : Scanner → Option Error
scanner_err s = s.scan_err
