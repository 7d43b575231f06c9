-- ===== src/Tests/Saved.antt =====
-- The theorems on receivers applied at concrete states.
use btrsync.Common.{
  ℕ, zero, suc, length-append, length-drop, ◌+◌, ◌≤◌, ◌≡◌, refl, ap, ◌∙◌, arith, false, Option,
  none, some, [], ◌∷◌, ◌++◌, length, replicate, drop,
}
use mathlib.Core.Path.{subst}
use btrsync.Common.Bytes.{Bytes}
use btrsync.Common.Outcome.{Outcome, ok, err, panic}
use btrsync.Btrfs.EncodedWrite.{Codecs}
use btrsync.Sendstream.Headers.{CmdHeader}
use btrsync.Sendstream.Commands.{btrfs_send_c_end, btrfs_send_c_mkfile}
use btrsync.Receive.Context.{Libraries}
use btrsync.Receive.Loop.{Run, next, process_command}
use btrsync.Receive.Receiver.{
  Error, failed, not_exist, Receiver, ReceiveContext, ReceivingSubvolume, skip_command, mkfile,
}
use btrsync.Receivers.Os.{Os, OpenMode, create_read_write, Syscall, sys_write}
use btrsync.Receive.Context.{receive_context}
use btrsync.Receive.Receiver.{finish_subvolume}
use btrsync.Receivers.Directory
use btrsync.Receivers.Directory.{
  DirectoryReceiver, directory_receiver, pre_op, post_op, finished_offset,
}
use btrsync.Receivers.Dispatched.{for_each, for_each-first_failure}
use btrsync.Receivers.Nop.{nop_call, nop_receiver}
use btrsync.Receivers.Resume.{
  process_commands, advanced, process_commands-skipped, process_command-end_panic,
}
use btrsync.Receivers.Saving.{Saved, OffsetFile, after_post_op, resumed, pre_op-post_op}

-- A world of one file, of which each path is the path.
abbrev one_run : Syscall → Option Bytes → Outcome Error (Unit {0}) × Option Bytes
one_run (sys_write fd b) none = (err failed, none)
one_run (sys_write fd b) (some old) = (ok tt, some (b ++ drop (length b) old))
one_run _ w = (ok tt, w)

abbrev one_open : Bytes → OpenMode → ℕ → Option Bytes → Outcome Error ℕ × Option Bytes
one_open path create_read_write perm none = (ok 3, some [])
one_open path create_read_write perm (some b) = (ok 3, some b)
one_open path _ perm none = (err not_exist, none)
one_open path _ perm (some b) = (ok 3, some b)

abbrev one_scan : ℕ → Option Bytes → Outcome Error ℕ × Option Bytes
one_scan fd none = (err failed, none)
one_scan fd (some b) = (ok (length b), some b)

-- Numbers are written as strokes.
abbrev one_file : Os
one_file = record {
  World = Option Bytes;
  paths = record { join = (λ ps. []); base = (λ p. p); dir = λ p. p };
  decimal = λ n. replicate n 49;
  uuid_string = λ u. u;
  run = one_run;
  open_file = one_open;
  socket = λ w. (err failed, w);
  scan_uint = one_scan;
}

abbrev size_of : Option Bytes → ℕ
size_of none = 0
size_of (some b) = length b

abbrev strokes : ℕ → Bytes
strokes n = replicate n 49

length-strokes : (n : ℕ) → length (strokes n) ≡ n
length-strokes zero = refl
length-strokes (suc n) = ap suc (length-strokes n)

written-Saved :
    (path : Bytes) (n : ℕ) (b : Bytes)
    → length b ≤ n
    → Saved one_file path n (some (strokes n ++ drop (length (strokes n)) b))
written-Saved path n b short = (3, new, new, refl, ap (λ k. (ok k, new)) size)
  where
    new : Option Bytes
    new = some (strokes n ++ drop (length (strokes n)) b)

    size : length (strokes n ++ drop (length (strokes n)) b) ≡ n
    size = omega (
      arith,
      length-append (strokes n) (drop (length (strokes n)) b),
      length-drop (length (strokes n)) b,
      length-strokes n,
      short,
    )

one_file-written :
    (path : Bytes) (n fd : ℕ) (w w' w'' : Option Bytes)
    → size_of w ≤ length (strokes n)
    → one_open path create_read_write 0o600 w ≡ (ok fd, w')
    → one_run (sys_write fd (strokes n)) w' ≡ (ok tt, w'')
    → Saved one_file path n w''
one_file-written path n fd none w' w'' short opened wrote =
    subst (Saved one_file path n)
      (ap (λ x. (one_run (sys_write fd (strokes n)) x).1) (ap (λ p. p.1) opened)
        ∙ ap (λ p. p.1) wrote)
      (written-Saved path n [] (omega arith))
one_file-written path n fd (some b) w' w'' short opened wrote =
    subst (Saved one_file path n)
      (ap (λ x. (one_run (sys_write fd (strokes n)) x).1) (ap (λ p. p.1) opened)
        ∙ ap (λ p. p.1) wrote)
      (written-Saved path n b (omega (arith, short, length-strokes n)))

one_file-OffsetFile : (path : Bytes) → OffsetFile one_file path size_of
one_file-OffsetFile path = record {
  written = one_file-written path;
  kept = λ n dir w w' made saved. subst (Saved one_file path n) (ap (λ p. p.1) made) saved;
}

abbrev codecs : Codecs
codecs = record { zlib = λ b. none; lzo = λ b n m. none; zstd = λ b. none }

abbrev info : ReceivingSubvolume
info = record { path = 97 ∷ []; uuid = 98 ∷ []; ctransid = 7 }

abbrev at_offset : ℕ → ReceiveContext
at_offset k = record { current_offset = k; current_subvolume = some info }

abbrev some_header : CmdHeader
some_header = record { len = 0; cmd = btrfs_send_c_mkfile; crc = 0 }

-- The number 5 is saved into a file of two bytes.
pre_op-post_op_example :
    ((resumed one_file codecs [] [] (at_offset 0) info (
        after_post_op one_file codecs [] []
          (at_offset 5)
          some_header
          []
          (record { current_offset = 0; world = some (1 ∷ 2 ∷ []) }))).0
      ≡ ok tt)
    × ((pre_op one_file codecs [] []
          (at_offset 4)
          some_header
          []
          (resumed one_file codecs [] [] (at_offset 0) info (
            after_post_op one_file codecs [] []
              (at_offset 5)
              some_header
              []
              (record { current_offset = 0; world = some (1 ∷ 2 ∷ []) }))).1).0
        ≡ err skip_command)
pre_op-post_op_example =
    pre_op-post_op one_file codecs [] [] size_of (at_offset 5) (at_offset 0) (at_offset 4) info
      some_header some_header [] [] (record { current_offset = 0; world = some (1 ∷ 2 ∷ []) })
      (one_file-OffsetFile _) refl refl (omega arith) (omega arith) saved refl
  where
    saved :
        (post_op one_file codecs [] []
          (at_offset 5)
          some_header
          []
          (record { current_offset = 0; world = some (1 ∷ 2 ∷ []) })).0
        ≡ ok tt
    saved = unfold post_op in refl

abbrev libraries : Libraries
libraries = record { uuid_from_bytes = λ b. none; codecs = codecs }

abbrev directory : Receiver
directory = directory_receiver one_file codecs [] []

-- A run at an offset, with a receiver that resumes at another.
abbrev run_at : ℕ → ℕ → Run directory libraries
run_at k saved = record {
  ctx = record {
    max_errors = 0;
    honor_end_cmd = false;
    force_decompress = false;
    ignore_checksums = false;
    start_offset = 0;
    current_offset = k;
    current_subvol_info = some info;
    receiver = record { current_offset = saved; world = some [] };
  };
  stream_errors = 0;
}

process_commands-skipped_example :
    process_commands directory libraries ((some_header, []) ∷ (some_header, []) ∷ []) (run_at 1 4)
    ≡ ok (next, advanced one_file codecs [] [] libraries 2 (run_at 1 4))
process_commands-skipped_example =
    process_commands-skipped one_file codecs [] [] libraries
      ((some_header, []) ∷ (some_header, []) ∷ []) (run_at 1 4) (omega arith) (omega arith)
      (omega arith)

-- The same world, with numbers written as one digit.
abbrev one_digit : Os
one_digit = record one_file { decimal = λ n. 49 ∷ [] }

abbrev digit_run : Run (directory_receiver one_digit codecs [] []) libraries
digit_run = record {
  ctx = record {
    max_errors = 0;
    honor_end_cmd = false;
    force_decompress = false;
    ignore_checksums = false;
    start_offset = 0;
    current_offset = 2;
    current_subvol_info = some info;
    receiver = record { current_offset = 0; world = some [] };
  };
  stream_errors = 0;
}

process_command-end_panic_example :
    process_command
      (directory_receiver one_digit codecs [] [])
      libraries
      (record { len = 0; cmd = btrfs_send_c_end; crc = 0 })
      []
      digit_run
    ≡ panic
process_command-end_panic_example =
    process_command-end_panic one_digit codecs [] [] libraries
      (record { len = 0; cmd = btrfs_send_c_end; crc = 0 }) [] digit_run
      (record { current_offset = 0; world = some (49 ∷ []) }) refl refl (omega arith) (omega arith)
      done (omega arith)
  where
    done :
        Directory.call one_digit codecs [] []
          (receive_context (directory_receiver one_digit codecs [] []) digit_run.ctx)
          finish_subvolume
          digit_run.ctx.receiver
        ≡ (ok tt, record { current_offset = 0; world = some (49 ∷ []) })
    done = unfold Directory.call receive_context in refl

-- Two receivers in front of one that fails.
abbrev failing : Receiver
failing = record {
  State = ℕ;
  call = λ ctx op n. (err failed, n + 1);
  pre_op = none;
  post_op = none;
}

for_each-first_failure_example :
    (for_each (nop_receiver ∷ []) (at_offset 0) (mkfile (97 ∷ []) 5) (tt, tt) ≡ (ok tt, (tt, tt)))
    × (for_each
          (nop_receiver ∷ failing ∷ failing ∷ [])
          (at_offset 0)
          (mkfile (97 ∷ []) 5)
          (tt, (0, (0, tt)))
        ≡ (err failed, (tt, (1, (0, tt)))))
unfolding nop_call
for_each-first_failure_example =
    for_each-first_failure (nop_receiver ∷ []) failing (failing ∷ []) (at_offset 0)
      (mkfile (97 ∷ []) 5) (tt, tt) 0 (0, tt) (refl, tt) (λ e. cc)
