-- ===== src/Receive/Diff/Prefix.antt =====
-- The offset that `FindDiffOffset` of pkg/receive/diff.go finds in two written streams.
use btrsync.Common.{
  inl, inr, ◌⊎◌, ℕ, zero, suc, ◌+◌, ◌%◌, ◌^◌, ◌<◌, ◌≡◌, ap, ◌∙◌, arith, true, false, none, List, [],
  ◌∷◌, ◌++◌, length, length-append, All,
}
use btrsync.Common.Bytes.{Bytes}
use btrsync.Common.Outcome.{Outcome-cases, ok}
use btrsync.Sendstream.Attrs.{CmdAttrs}
use btrsync.Sendstream.Commands.{SendCommand, btrfs_send_c_subvol, btrfs_send_c_snapshot}
use btrsync.Sendstream.Headers.{CmdHeader, zero_cmd_header}
use btrsync.Sendstream.Scanner.{scan, new_scanner, command}
use btrsync.Sendstream.Stream.{IsCommand}
use btrsync.Sendstream.Stream.Scanning.{opened, scan-new_scanner, scan-frame}
use btrsync.Sendstream.Writer.{command_header, buffer, new_writer}
use btrsync.Sendstream.Writer.Buffer.{frames, stream_header, write_commands, write_commands-frames}
use btrsync.Receive.Diff.{same_command, or_return, diff_loop, find_diff_offset}
use btrsync.Receive.Loop.{is_subvol_command}
use btrsync.Receive.Replay.Streams.{length-frames}

abbrev pub header_of : SendCommand × CmdAttrs → CmdHeader
header_of c = command_header c.0 c.1

-- Two commands open a subvolume in the same way, or have equal headers.
abbrev pub Same : CmdHeader → CmdHeader → Type 0
Same a b =
    ((a.cmd ≡ b.cmd) × ((a.cmd ≡ btrfs_send_c_subvol) ⊎ (a.cmd ≡ btrfs_send_c_snapshot)))
    ⊎ ((a.cmd ≡ b.cmd) × (a.crc ≡ b.crc) × (a.len ≡ b.len))

same_command-Same : (a b : CmdHeader) → Same a b → same_command a b ≡ true
unfolding same_command is_subvol_command
same_command-Same a b same = ground arith

same_command-different : (a b : CmdHeader) → ¬ Same a b → same_command a b ≡ false
unfolding same_command is_subvol_command
same_command-different a b differ = ground arith

-- Commands that are the same, in pairs.
abbrev pub Matches : List (SendCommand × CmdAttrs) → List (SendCommand × CmdAttrs) → Type 0
Matches [] [] = Unit
Matches [] (d ∷ ds) = ⊥
Matches (c ∷ cs) [] = ⊥
Matches (c ∷ cs) (d ∷ ds) = Same (header_of c) (header_of d) × Matches cs ds

diff_loop-prefix :
    (xs xs' ys zs : List (SendCommand × CmdAttrs)) (y z : SendCommand × CmdAttrs) (fuel n : ℕ)
    (hdr hdr' : CmdHeader) (old old' : CmdAttrs)
    → All IsCommand (xs ++ y ∷ ys)
    → All IsCommand (xs' ++ z ∷ zs)
    → Matches xs xs'
    → ¬ Same (header_of y) (header_of z)
    → length xs < fuel
    → n + length xs < 2 ^ 64
    → diff_loop fuel n
        (opened false (frames (xs ++ y ∷ ys)) hdr old)
        (opened false (frames (xs' ++ z ∷ zs)) hdr' old')
      ≡ ok (n + length xs, none)
unfolding diff_loop frames or_return command
diff_loop-prefix xs xs' ys zs y z zero n hdr hdr' old old' hy hz m differ l fits =
    absurd (omega arith)
diff_loop-prefix [] (x' ∷ xs') ys zs y z (suc fuel) n hdr hdr' old old' hy hz m differ l fits =
    absurd m
diff_loop-prefix (x ∷ xs) [] ys zs y z (suc fuel) n hdr hdr' old old' hy hz m differ l fits =
    absurd m
diff_loop-prefix [] [] ys zs y z (suc fuel) n hdr hdr' old old' (hy, hys) (hz, hzs) m differ l
      fits =
    let (attrs, e, same) = scan-frame y false (frames ys) hdr old hy in
    let (attrs', e', same') = scan-frame z false (frames zs) hdr' old' hz in
    rw (e, e', same_command-different _ _ differ) (ap (λ k. ok (k, none)) (omega arith))
diff_loop-prefix (x ∷ xs) (x' ∷ xs') ys zs y z (suc fuel) n hdr hdr' old old' (hx, hy) (hx', hz)
      (mx, m) differ l fits =
    let (attrs, e, same) = scan-frame x false (frames (xs ++ y ∷ ys)) hdr old hx in
    let (attrs', e', same') = scan-frame x' false (frames (xs' ++ z ∷ zs)) hdr' old' hx' in
    let step : (n + 1) % 2 ^ 64 ≡ n + 1 = omega arith in
    rw (e, e', same_command-Same _ _ mx, step)
      (diff_loop-prefix xs xs' ys zs y z fuel (n + 1) (header_of x) (header_of x') attrs attrs' hy
          hz m differ (omega arith) (omega arith)
        ∙ ap (λ k. ok (k, none)) (omega arith))

abbrev pub stream_of : List (SendCommand × CmdAttrs) → Bytes
stream_of cs = (write_commands cs (new_writer buffer [])).1.writer

stream_of-frames :
    (xs ys : List (SendCommand × CmdAttrs)) (y : SendCommand × CmdAttrs)
    → stream_of (xs ++ y ∷ ys) ≡ stream_header ++ frames (xs ++ y ∷ ys)
stream_of-frames [] ys y = ap (λ r. r.1.writer) (write_commands-frames y ys [])
stream_of-frames (x ∷ xs) ys y = ap (λ r. r.1.writer) (write_commands-frames x (xs ++ y ∷ ys) [])

diff_loop-new_scanner :
    (n k : ℕ) (a b : Bytes)
    → diff_loop
        (suc n)
        k
        (new_scanner (stream_header ++ a) false)
        (new_scanner (stream_header ++ b) false)
      ≡ diff_loop (suc n) k (opened false a zero_cmd_header []) (opened false b zero_cmd_header [])
unfolding diff_loop
diff_loop-new_scanner n k a b = elim (Outcome-cases (scan (opened false a zero_cmd_header []))) [
  | inl ((true, a'), e) ↦ rw (diff_loop, scan-new_scanner false a, e, scan-new_scanner false b)
  | inl ((false, a'), e) ↦ rw (diff_loop, scan-new_scanner false a, e)
  | inr (inl (x, e)) ↦ rw (diff_loop, scan-new_scanner false a, e)
  | inr (inr (inl e)) ↦ rw (diff_loop, scan-new_scanner false a, e)
  | inr (inr (inr e)) ↦ rw (diff_loop, scan-new_scanner false a, e)
]

find_diff_offset-frames :
    (xs xs' ys zs : List (SendCommand × CmdAttrs)) (y z : SendCommand × CmdAttrs)
    → All IsCommand (xs ++ y ∷ ys)
    → All IsCommand (xs' ++ z ∷ zs)
    → Matches xs xs'
    → ¬ Same (header_of y) (header_of z)
    → length xs < 2 ^ 64
    → find_diff_offset
        (stream_header ++ frames (xs ++ y ∷ ys))
        (stream_header ++ frames (xs' ++ z ∷ zs))
      ≡ ok (length xs, none)
unfolding find_diff_offset
find_diff_offset-frames xs xs' ys zs y z hy hz m differ fits =
    let a = frames (xs ++ y ∷ ys) in
    let n = length (stream_header ++ a) in
    diff_loop-new_scanner n 0 a (frames (xs' ++ z ∷ zs))
    ∙ diff_loop-prefix xs xs' ys zs y z (suc n) 0 zero_cmd_header zero_cmd_header [] [] hy hz m
        differ
        (omega (
          arith,
          length-append {0} stream_header a,
          length-append {0} xs (y ∷ ys),
          length-frames (xs ++ y ∷ ys),
        ))
        (omega (arith, fits))
    ∙ ap (λ k. ok (k, none)) (omega arith)

-- Of two streams that new writers leave, whose first commands match in pairs and whose next ones
-- do not, FindDiffOffset finds the number of these pairs, and no error: two commands match if both
-- open a subvolume in the same way, or if they have the same number, checksum and length. The
-- commands are ones that the format can carry, and the pairs are fewer than 2^64.
pub find_diff_offset-prefix :
    (xs xs' ys zs : List (SendCommand × CmdAttrs)) (y z : SendCommand × CmdAttrs)
    → All IsCommand (xs ++ y ∷ ys)
    → All IsCommand (xs' ++ z ∷ zs)
    → Matches xs xs'
    → ¬ Same (header_of y) (header_of z)
    → length xs < 2 ^ 64
    → find_diff_offset (stream_of (xs ++ y ∷ ys)) (stream_of (xs' ++ z ∷ zs)) ≡ ok (length xs, none)
find_diff_offset-prefix xs xs' ys zs y z hy hz m differ fits =
    ap (λ a. find_diff_offset a (stream_of (xs' ++ z ∷ zs))) (stream_of-frames xs ys y)
    ∙ ap (find_diff_offset (stream_header ++ frames (xs ++ y ∷ ys))) (stream_of-frames xs' zs z)
    ∙ find_diff_offset-frames xs xs' ys zs y z hy hz m differ fits
