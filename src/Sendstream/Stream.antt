-- ===== src/Sendstream/Stream.antt =====
-- The scanner of pkg/sendstream/scanner.go on a command that was written.
pub mod Scanning
pub mod Ends
pub mod Corrupt
use btrsync.Common.{
  ℕ, zero, suc, ◌+◌, ◌%◌, ◌^◌, ◌≤◌, ◌<◌, ◌≡◌, refl, sym, ap, ◌∙◌, arith, Bool, true, false, Option,
  none, some, List, [], ◌∷◌, ◌++◌, append_assoc, length, length-append, All, All-append, ==_refl,
  ◌==◌, Bool-cases, Option-cases, inl, inr, if◌then◌else◌,
}
use mathlib.Core.Path.{subst}
use mathlib.Core.Option.{some-injective}
use btrsync.Common.Bytes.{Bytes, IsByte, put_uint, put_uint-IsByte}
use btrsync.Common.Dict.{lookup, NodupKeys}
use btrsync.Common.Outcome.{Outcome, ok, err, panic, stuck, ◌>>=◌, bind_state}
use btrsync.Sendstream.Attributes.{btrfs_send_a_data}
use btrsync.Sendstream.Attrs.{CmdAttrs, binary_size, encode, encode_data}
use btrsync.Sendstream.Attrs.Encoding.{
  entry, others, entries, data_part, encode-entries, binary_size-encode,
}
use btrsync.Sendstream.Commands.{SendCommand}
use btrsync.Sendstream.Crc32.Table.{btrfs_crc32c-lt}
use btrsync.Sendstream.Headers.{
  CmdHeader, put_cmd_header, get_cmd_header, calculate_crc32, validate_crc32, IsCmdHeader,
  length-put_cmd_header, get_cmd_header-put_cmd_header, put_cmd_header-IsByte,
}
use btrsync.Sendstream.Scanner.{
  Error, Scanner, read, read_command, read_command_header, read_command_attributes, parse_attrs,
  check_attrs,
}
use btrsync.Sendstream.Scanner.Parse.{Fits, read-append}
use btrsync.Sendstream.Scanner.RoundTrip.{SameMap, parse_attrs-encode}
use btrsync.Sendstream.Writer.{command_header}
use btrsync.Sendstream.Writer.Buffer.{frame}

abbrev pub AllBytes : CmdAttrs → Type 0
AllBytes = All (λ (e : ℕ × Bytes). All IsByte e.1)

-- A command that the format can carry: its number in 16 bits, each attribute once, its number and
-- (but for the data) its length in 16 bits, and all of them in 32 bits.
pub record IsCommand (c : SendCommand × CmdAttrs) : Type 0 where
  pub cmd_fits : c.0 < 2 ^ 16
  pub keys : NodupKeys c.1
  pub attrs_fit : All Fits (others c.1)
  pub bytes : AllBytes c.1
  pub size_fits : length (encode c.1) < 2 ^ 32

entry-IsByte :
    (k : ℕ) (v rest : Bytes) → All IsByte v → All IsByte rest → All IsByte (entry k v ++ rest)
unfolding put_uint
entry-IsByte k v rest h l =
    All-append IsByte (entry k v) rest (omega arith, (omega arith, (omega arith, (omega arith, h))))
      l

entries-IsByte : (c : CmdAttrs) → AllBytes c → All IsByte (entries (others c))
unfolding entries others
entries-IsByte [] h = tt
entries-IsByte ((k, v) ∷ c) (hv, h) = elim (Bool-cases (k == btrfs_send_a_data)) [
  | inl e ↦ rw e (entries-IsByte c h)
  | inr e ↦ rw e (entry-IsByte k v (entries (others c)) hv (entries-IsByte c h))
]

lookup-IsByte : (k : ℕ) (c : CmdAttrs) {v : Bytes} → AllBytes c → lookup k c ≡ some v → All IsByte v
unfolding lookup
lookup-IsByte k [] h e = cc
lookup-IsByte k ((j, w) ∷ c) {v} (hw, h) e = elim (Bool-cases (j == k)) [
  | inl q ↦ let p : some w ≡ some v = rw (q) at e in subst (All IsByte) (some-injective w v p) hw
  | inr q ↦ lookup-IsByte k c h (rw (q) at e)
]

data_part-IsByte : (c : CmdAttrs) → AllBytes c → All IsByte (data_part c)
unfolding data_part encode_data put_uint
data_part-IsByte c h = elim (Option-cases (lookup btrfs_send_a_data c)) [
  | inl e ↦ rw (e) tt
  | inr (v, e) ↦ rw (e) (omega arith, (omega arith, lookup-IsByte btrfs_send_a_data c h e))
]

pub encode-IsByte : (c : CmdAttrs) → AllBytes c → All IsByte (encode c)
encode-IsByte c h = rw encode-entries (
    All-append IsByte (entries (others c)) (data_part c) (entries-IsByte c h)
      (data_part-IsByte c h))

module _ (c : SendCommand × CmdAttrs) (v : IsCommand c) where
  binary_size-length : binary_size c.1 ≡ length (encode c.1)
  binary_size-length = binary_size-encode c.1 v.keys ∙ omega (arith, v.size_fits)

  pub command_header-IsCmdHeader : IsCmdHeader (command_header c.0 c.1)
  unfolding command_header calculate_crc32
  command_header-IsCmdHeader = record {
    len_fits = omega (arith, binary_size-length, v.size_fits);
    cmd_fits = v.cmd_fits;
    crc_fits = btrfs_crc32c-lt 0 _ (omega arith) (
        All-append IsByte (put_cmd_header _) (encode c.1) (put_cmd_header-IsByte _)
          (encode-IsByte c.1 v.bytes));
  }

  pub validate_crc32-encode : validate_crc32 (command_header c.0 c.1) (encode c.1) ≡ true
  unfolding validate_crc32 command_header
  validate_crc32-encode = ==_refl _

  read_command_header-frame :
      (s : Scanner) (rest : Bytes)
      → s.reader ≡ frame c ++ rest
      → read_command_header s
        ≡ (ok (command_header c.0 c.1), record s { reader = encode c.1 ++ rest })
  unfolding read_command_header frame
  read_command_header-frame s rest e =
      let h = command_header c.0 c.1 in
      rw (
        e,
        append_assoc (put_cmd_header h) (encode c.1) rest,
        read-append 10 (put_cmd_header h) (encode c.1 ++ rest) (length-put_cmd_header h),
        get_cmd_header-put_cmd_header h command_header-IsCmdHeader,
      )

  pub command_header-len : length (encode c.1) ≡ (command_header c.0 c.1).len
  unfolding command_header
  command_header-len = sym binary_size-length

  check_attrs-encode :
      (ignore : Bool)
      → check_attrs ignore (command_header c.0 c.1) (encode c.1) ≡ parse_attrs (encode c.1)
  unfolding check_attrs
  check_attrs-encode true = refl
  check_attrs-encode false = rw validate_crc32-encode

  read_command_attributes-encode :
      (s : Scanner) (rest : Bytes) (attrs : CmdAttrs)
      → s.reader ≡ encode c.1 ++ rest
      → parse_attrs (encode c.1) ≡ ok attrs
      → read_command_attributes (command_header c.0 c.1) s ≡ (ok attrs, record s { reader = rest })
  unfolding read_command_attributes
  read_command_attributes-encode s rest attrs e p = rw (
    e,
    read-append (command_header c.0 c.1).len (encode c.1) rest command_header-len,
    check_attrs-encode s.ignore_checksums,
    p,
  )

  -- `ReadCommand` on a written command: its header, the same attributes, and what follows is left.
  pub read_command-frame :
      (s : Scanner) (rest : Bytes)
      → s.reader ≡ frame c ++ rest
      → (attrs : CmdAttrs) × (read_command s
          ≡ (ok (command_header c.0 c.1, attrs), record s { reader = rest }))
        × SameMap attrs c.1
  unfolding read_command
  read_command-frame s rest e =
      let (attrs, parsed, same) = parse_attrs-encode c.1 v.keys v.attrs_fit in
      (
        attrs,
        rw (
          read_command_header-frame s rest e,
          read_command_attributes-encode (record s { reader = encode c.1 ++ rest }) rest attrs refl
              parsed,
        ),
        same,
      )
