-- ===== src/Receive/Diff.antt =====
-- `FindDiffOffset` of pkg/receive/diff.go, without the line that prints the headers.
pub mod Prefix
use btrsync.Common.{
  ℕ, zero, suc, ◌+◌, ◌%◌, ◌^◌, Bool, true, false, not, ◌&&◌, ◌||◌, Option, none, length, ◌==◌,
  if◌then◌else◌,
}
use btrsync.Common.Bytes.{Bytes}
use btrsync.Common.Outcome.{Outcome, ok, stuck, ◌>>=◌}
use btrsync.Sendstream.Headers.{CmdHeader}
use btrsync.Sendstream.Scanner.{Error, Scanner, new_scanner, scan, command, scanner_err}
use btrsync.Receive.Loop.{is_subvol_command}

-- Whether the loop goes on behind two commands. The commands that open a subvolume need not agree,
-- since their UUIDs are different.
unfoldable pub same_command : CmdHeader → CmdHeader → Bool
unfolding is_subvol_command
same_command a b =
    if a.cmd == b.cmd && is_subvol_command a.cmd
    then true
    else not (not (a.cmd == b.cmd) || not (a.crc == b.crc) || not (a.len == b.len))

-- The offset and the error, if any.
abbrev pub Found : Type 0
Found = Outcome Error (ℕ × Option Error)

-- After both streams gave a command: go on, or return.
unfoldable pub or_return : Bool → ℕ → Found → Found
or_return true offset rest = rest
or_return false offset rest = ok (offset, none)

-- The loop on fuel; the offset is a `uint64`.
unfoldable pub diff_loop : ℕ → ℕ → Scanner → Scanner → Found
unfolding same_command or_return
diff_loop zero offset a b = stuck
diff_loop (suc fuel) offset a b = scan a >>= λ (more, a'). elim more [
  | false ↦ ok (offset, scanner_err a')
  | true ↦ scan b >>= λ (more', b'). elim more' [
    | false ↦ ok (offset, scanner_err b')
    | true ↦
        or_return (same_command (command a').0 (command b').0) offset
          (diff_loop fuel ((offset + 1) % 2 ^ 64) a' b')
  ]
]

-- Fuel as for one stream: each command takes ten bytes of the first at least.
unfoldable pub find_diff_offset : Bytes → Bytes → Found
unfolding diff_loop
find_diff_offset a b = diff_loop (suc (length a)) 0 (new_scanner a false) (new_scanner b false)
