-- ===== src/Sendstream/Scanner/Progress.antt =====
-- What `Scan` of pkg/sendstream/scanner.go takes of any bytes.
use btrsync.Common.{
  ℕ, zero, suc, ◌+◌, ◌≤◌, ◌<◌, ◌≡◌, ◌≢◌, refl, arith, Bool, true, false, none, some, [], ◌∷◌,
  length, length-drop, take, drop, leb, leb→le, Bool-cases, Option-cases, ◌⊎◌, inl, inr,
}
use mathlib.Core.Path.{subst}
use btrsync.Common.Bytes.{Bytes}
use btrsync.Common.Outcome.{Outcome, ok, err, panic, stuck, Outcome-cases}
use btrsync.Sendstream.Headers.{StreamHeader, get_stream_header, CmdHeader, get_cmd_header}
use btrsync.Sendstream.Scanner.{
  zero_stream_header, check_header, Error, Scanner, read, read_header, header_result, read_command,
  read_command_header, read_command_attributes, check_attrs, scan, scan_header, scan_result,
}
use btrsync.Sendstream.Scanner.Parse.{parse_attrs-ne-stuck}

-- A read fails, or it takes what it was asked for.
read-cases :
    (n : ℕ) (d : Bytes)
    → ((e : Error) × (read n d ≡ (err e, [])))
      ⊎ ((b : Bytes) × (rest : Bytes) × (read n d ≡ (ok b, rest)) × (length rest + n ≡ length d))
unfolding read
read-cases zero [] = inr ([], [], refl, refl)
read-cases (suc n) [] = inl (Error.eof, ground arith)
read-cases n (x ∷ d) = elim (Bool-cases (leb n (length (x ∷ d)))) [
  | inl e ↦
      inr (take n (x ∷ d), drop n (x ∷ d), rw e, omega (arith, length-drop n (x ∷ d), leb→le n _ e))
  | inr e ↦ inl (Error.unexpected_eof, rw e)
]

check_attrs-ne-stuck :
    (ignore : Bool) (hdr : CmdHeader) (d : Bytes) → check_attrs ignore hdr d ≢ stuck
unfolding check_attrs
check_attrs-ne-stuck ignore hdr d = ground (arith, parse_attrs-ne-stuck d)

-- The outcome of `Scan` on `n` bytes: after true, fewer are left.
abbrev pub Advances : ℕ → Outcome Error (Bool × Scanner) → Type 0
Advances n (ok (true, s)) = length s.reader < n
Advances n (ok (false, s)) = Unit
Advances n (err e) = Unit
Advances n panic = Unit
Advances n stuck = ⊥

scan_result-Advances :
    (n : ℕ) (s : Scanner) → length s.reader ≤ n → Advances n (scan_result (read_command s))
unfolding scan_result read_command read_command_header read_command_attributes
scan_result-Advances n s h = elim (read-cases 10 s.reader) [
  | inl (e, p) ↦ rw p tt
  | inr (b, rest, p, l) ↦ elim (read-cases (get_cmd_header b).len rest) [
    | inl (e, q) ↦ rw (p, q) tt
    | inr (body, left, q, l') ↦
        elim (Outcome-cases (check_attrs s.ignore_checksums (get_cmd_header b) body)) [
          | inl (attrs, e) ↦ rw (p, q, e) (omega arith)
          | inr (inl (x, e)) ↦ rw (p, q, e) tt
          | inr (inr (inl e)) ↦ rw (p, q, e) tt
          | inr (inr (inr e)) ↦
              absurd (check_attrs-ne-stuck s.ignore_checksums (get_cmd_header b) body e)
        ]
  ]
]

read_header-cases :
    (s : Scanner)
    → ((hdr : StreamHeader) × (e : Error) × (t : Scanner) × (read_header s ≡ (hdr, some e, t)))
      ⊎ ((hdr : StreamHeader) × (t : Scanner) × (read_header s ≡ (hdr, none, t))
          × (length t.reader ≤ length s.reader))
unfolding read_header header_result
read_header-cases s = elim (read-cases 17 s.reader) [
  | inl (e, p) ↦ inl (zero_stream_header, e, record s { reader = [] }, rw p)
  | inr (b, rest, p, l) ↦
      let t : Scanner = record s { reader = rest; header_parsed = true } in
      elim (Option-cases (check_header (get_stream_header b))) [
        | inl e ↦ inr (get_stream_header b, t, rw (p, e), omega arith)
        | inr (x, e) ↦ inl (get_stream_header b, x, t, rw (p, e))
      ]
]

-- `Scan` never runs out of fuel on any bytes, in any state of the scanner, and when it answers true
-- it has taken at least one of them.
pub scan-Advances : (s : Scanner) → Advances (length s.reader) (scan s)
unfolding scan scan_header
scan-Advances s = elim (Option-cases s.scan_err) [
  | inr (e, p) ↦ rw (scan, p) tt
  | inl p ↦ elim (Bool-cases s.header_parsed) [
    | inl q ↦
        rw (scan, p, q)
          (scan_result-Advances (length s.reader) (record s { header_parsed = true }) (omega arith))
    | inr q ↦ elim (read_header-cases (record s { header_parsed = false })) [
      | inl (hdr, e, t, w) ↦ rw (scan, p, q, w) tt
      | inr (hdr, t, w, l) ↦ rw (scan, p, q, w) (scan_result-Advances (length s.reader) t l)
    ]
  ]
]

-- What follows from that for a call of `Scan`.
pub scan-shorter : (s s' : Scanner) → scan s ≡ ok (true, s') → length s'.reader < length s.reader
scan-shorter s s' e = subst (Advances (length s.reader)) e (scan-Advances s)

pub scan-ne-stuck : (s : Scanner) → scan s ≢ stuck
scan-ne-stuck s e = subst (Advances (length s.reader)) e (scan-Advances s)
