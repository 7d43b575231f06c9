-- ===== src/Sendstream/Stream/Scanning.antt =====
-- A whole stream: the commands that a writer put into a buffer, scanned until `Scan` answers false.
use btrsync.Common.{
  ℕ, zero, suc, ◌+◌, ◌<◌, ◌≡◌, refl, arith, Bool, true, false, Option, none, some, List, [], ◌∷◌,
  ◌++◌, length, All, ◌==◌, if◌then◌else◌,
}
use btrsync.Common.Bytes.{Bytes, bytes_eq, put_uint, le_value}
use btrsync.Common.Outcome.{Outcome, ok, stuck, ◌>>=◌}
use btrsync.Sendstream.Attrs.{CmdAttrs}
use btrsync.Sendstream.Commands.{SendCommand, btrfs_send_c_end}
use btrsync.Sendstream.Headers.{CmdHeader, zero_cmd_header, put_stream_header, get_stream_header}
use btrsync.Sendstream.Scanner.{
  Error, eof, Scanner, new_scanner, read, read_header, read_command, scan, scan_error, command,
  scanner_err, check_header,
}
use btrsync.Sendstream.Scanner.Parse.{read-append}
use btrsync.Sendstream.Scanner.RoundTrip.{SameMap}
use btrsync.Sendstream.Stream.{IsCommand, read_command-frame}
use btrsync.Sendstream.Writer.{command_header, buffer, new_writer}
use btrsync.Sendstream.Writer.Buffer.{
  frame, frames, stream_header, write_commands, write_commands-frames,
}

-- `for s.Scan() { … s.Command() … }; return s.Err()`, on fuel.
unfoldable pub scan_all : ℕ → Scanner → Outcome Error (List (CmdHeader × CmdAttrs) × Option Error)
scan_all zero s = stuck
scan_all (suc fuel) s = scan s >>= λ (more, s'). elim more [
  | true ↦ scan_all fuel s' >>= λ r. ok (command s' ∷ r.0, r.1)
  | false ↦ ok ([], scanner_err s')
]

-- A scanner behind the stream header.
abbrev pub opened : Bool → Bytes → CmdHeader → CmdAttrs → Scanner
opened ignore rest hdr attrs = record {
  reader = rest;
  ignore_checksums = ignore;
  header_parsed = true;
  scan_err = none;
  cur_hdr = hdr;
  cur_attrs = attrs;
}

read-stream_header : (d : Bytes) → read 17 (stream_header ++ d) ≡ (ok stream_header, d)
unfolding put_stream_header put_uint
read-stream_header d = read-append 17 stream_header d refl

check_header-stream_header : check_header (get_stream_header stream_header) ≡ none
unfolding check_header put_stream_header put_uint get_stream_header le_value bytes_eq
check_header-stream_header = refl

read_header-new_scanner :
    (ignore : Bool) (d : Bytes)
    → read_header (new_scanner (stream_header ++ d) ignore)
      ≡ (get_stream_header stream_header, none, opened ignore d zero_cmd_header [])
unfolding read_header new_scanner
read_header-new_scanner ignore d = rw (read-stream_header d, check_header-stream_header)

-- The first `Scan` reads the stream header, and goes on behind it.
pub scan-new_scanner :
    (ignore : Bool) (d : Bytes)
    → scan (new_scanner (stream_header ++ d) ignore) ≡ scan (opened ignore d zero_cmd_header [])
unfolding scan new_scanner
scan-new_scanner ignore d = rw (read_header-new_scanner ignore d)

pub scan-frame :
    (c : SendCommand × CmdAttrs) (ignore : Bool) (rest : Bytes) (hdr : CmdHeader) (old : CmdAttrs)
    → IsCommand c
    → (attrs : CmdAttrs) × (scan (opened ignore (frame c ++ rest) hdr old)
        ≡ ok (true, opened ignore rest (command_header c.0 c.1) attrs))
      × SameMap attrs c.1
unfolding scan
scan-frame c ignore rest hdr old v =
    let (attrs, e, same) =
      read_command-frame c v (opened ignore (frame c ++ rest) hdr old) rest refl in
    (attrs, rw e, same)

pub scan-nil :
    (ignore : Bool) (hdr : CmdHeader) (old : CmdAttrs)
    → scan (opened ignore [] hdr old)
      ≡ ok (false, record (opened ignore [] hdr old) { scan_err = scan_error hdr eof })
unfolding scan read_command
scan-nil ignore hdr old = refl

-- What `Err` answers at the end of the input: nothing if the last command was END.
abbrev pub end_err : SendCommand → Option Error
end_err cmd = if cmd == btrfs_send_c_end then none else some eof

pub scan_error-eof : (hdr : CmdHeader) → scan_error hdr eof ≡ end_err hdr.cmd
unfolding scan_error
scan_error-eof hdr = ground arith

abbrev pub last_cmd : SendCommand → List (SendCommand × CmdAttrs) → SendCommand
last_cmd cmd [] = cmd
last_cmd cmd (c ∷ cs) = last_cmd c.0 cs

-- The headers that the writer computed, and the same attributes.
abbrev pub SameCommands : List (CmdHeader × CmdAttrs) → List (SendCommand × CmdAttrs) → Type 0
SameCommands [] [] = Unit
SameCommands [] (c ∷ cs) = ⊥
SameCommands (d ∷ ds) [] = ⊥
SameCommands (d ∷ ds) (c ∷ cs) =
    (d.0 ≡ command_header c.0 c.1) × SameMap d.1 c.1 × SameCommands ds cs

scan_all-frames :
    (cs : List (SendCommand × CmdAttrs)) (fuel : ℕ) (ignore : Bool) (hdr : CmdHeader)
    (old : CmdAttrs)
    → All IsCommand cs
    → length cs < fuel
    → (ds : List (CmdHeader × CmdAttrs)) × (scan_all fuel (opened ignore (frames cs) hdr old)
        ≡ ok (ds, end_err (last_cmd hdr.cmd cs)))
      × SameCommands ds cs
unfolding scan_all frames command scanner_err command_header scan-frame
scan_all-frames cs zero ignore hdr old h l = absurd (omega arith)
scan_all-frames [] (suc fuel) ignore hdr old h l =
    ([], rw (scan-nil ignore hdr old, scan_error-eof hdr), tt)
scan_all-frames (c ∷ cs) (suc fuel) ignore hdr old (hc, h) l =
    let (attrs, e, same) = scan-frame c ignore (frames cs) hdr old hc in
    let (ds, later, sames) =
      scan_all-frames cs fuel ignore (command_header c.0 c.1) attrs h (omega arith) in
    ((command_header c.0 c.1, attrs) ∷ ds, rw (e, later), (refl, same, sames))

-- For commands that the format can carry, written one after the other by a new writer, the loop
-- over a new scanner on the buffer gives the same commands in order, each with the header that the
-- writer computed and the same attributes as a map, whether or not checksums are checked, for any
-- fuel above their number plus one; the error at the end is io.EOF unless the last command was
-- END.
pub scan_all-write_commands :
    (c : SendCommand × CmdAttrs) (cs : List (SendCommand × CmdAttrs)) (ignore : Bool) (fuel : ℕ)
    → All IsCommand (c ∷ cs)
    → length cs + 1 < fuel
    → (ds : List (CmdHeader × CmdAttrs)) × (scan_all fuel
          (new_scanner (write_commands (c ∷ cs) (new_writer buffer [])).1.writer ignore)
        ≡ ok (ds, end_err (last_cmd c.0 cs)))
      × SameCommands ds (c ∷ cs)
unfolding scan_all
scan_all-write_commands c cs ignore zero h l = absurd (omega arith)
scan_all-write_commands c cs ignore (suc fuel) h l =
    let (ds, e, same) =
      scan_all-frames (c ∷ cs) (suc fuel) ignore zero_cmd_header [] h (omega arith) in
    (ds, rw (write_commands-frames c cs []) (rw (scan_all, scan-new_scanner) e), same)
