-- ===== src/Tests.antt =====
-- The theorems applied at concrete inputs.
mod Settings
mod Saved
mod Trees
mod Memory
mod Queues
mod Snapshots
use btrsync.Common.{
  ◌%◌, ◌^◌, ◌≡◌, ◌≢◌, refl, arith, true, false, none, some, inr, List, [], ◌∷◌, ◌++◌, length,
  get_or, ◌==◌, if◌then◌else◌,
}
use btrsync.Common.Bytes.{Bytes, put_uint}
use btrsync.Common.Dict.{lookup}
use btrsync.Common.Outcome.{ok, stuck}
use btrsync.Sendstream.Attributes.{
  btrfs_send_a_path, btrfs_send_a_ino, btrfs_send_a_file_offset, btrfs_send_a_data,
}
use btrsync.Sendstream.Attrs.{CmdAttrs, binary_size, encode, encode_loop, encode_data}
use btrsync.Sendstream.Attrs.Encoding.{others, binary_size-encode}
use btrsync.Sendstream.Commands.{SendCommand, btrfs_send_c_mkfile, btrfs_send_c_write}
use btrsync.Sendstream.Crc32.{crc32q, btrfs_crc32c}
use btrsync.Sendstream.Crc32.Table.{crc_bits, crc32c, btrfs_crc32c-crc32c}
use btrsync.Sendstream.Scanner.{parse_attrs, new_scanner}
use btrsync.Sendstream.Scanner.Parse.{parse_attrs-ne-stuck}
use btrsync.Sendstream.Scanner.RoundTrip.{SameMap, parse_attrs-encode}
use btrsync.Sendstream.Headers.{CmdHeader}
use btrsync.Sendstream.Stream.{IsCommand}
use btrsync.Sendstream.Stream.Scanning.{
  scan_all, end_err, last_cmd, SameCommands, scan_all-write_commands,
}
use btrsync.Sendstream.Writer.{new_writer, buffer}
use btrsync.Sendstream.Writer.Buffer.{write_commands, write_commands-frames, frames, stream_header}
use btrsync.Common.{map, All, some}
use btrsync.Common.Dict.{insert}
use btrsync.Common.Outcome.{err}
use btrsync.Sendstream.Attrs.Setters.{set_path, set_uuid, set_ctransid, set_ino}
use btrsync.Sendstream.Crc32.Detect.{btrfs_crc32c-one_byte}
use btrsync.Sendstream.Headers.{put_cmd_header, zero_cmd_header}
use btrsync.Sendstream.Scanner.{Scanner, read_command, invalid_command_checksum}
use btrsync.Sendstream.Stream.Corrupt.{read_command-corrupted}
use btrsync.Sendstream.Stream.Ends.{scan_all-ne-stuck}
use btrsync.Sendstream.Writer.{command_header}
use btrsync.Receive.Commands.{IsOp}
use btrsync.Receive.Context.{from_offset, next_offset, call, set_subvol}
use btrsync.Receive.Ends.{CallsEnd, ends_ok}
use btrsync.Receive.Ends.Streams.{process_send_stream-ne-stuck}
use btrsync.Receive.Loop.{
  process_send_stream, settle, and_next, and_loop, end_subvolume, finish_open,
}
use btrsync.Receive.Receiver.{finish_subvolume, subvol}
use btrsync.Receive.Replay.{replay, opened_by, is_finish}
use btrsync.Receive.Replay.Streams.{process_send_stream-replay}
use btrsync.Receive.Replay.Resume.{process_send_stream-from_offset}
use btrsync.Common.{ℕ}
use btrsync.Sendstream.Attributes.{SendAttribute}
use btrsync.Receive.Required.{required, run_process-missing}
use btrsync.Receive.Receiver.{missing_attribute}
use btrsync.Receive.Diff.{find_diff_offset}
use btrsync.Receive.Diff.Prefix.{Same, header_of, stream_of, find_diff_offset-prefix}
use btrsync.Receive.Loop.{is_subvol_command}
use btrsync.Btrfs.RootInfo.{RootInfo}
use btrsync.Common.Int.{pos, lt_int}
use btrsync.Snapmanager.{to_timed_chunks, chunk_loop}
use btrsync.Snapmanager.Chunks.{flatten, Within, to_timed_chunks-flatten, to_timed_chunks-Within}
use btrsync.Receive.Commands.{command_of, apply_op}
use btrsync.Receive.Context.{Libraries, ReceiveCtx, UuidLaw, new_ctx}
use btrsync.Receive.Dispatch.{run_process-command_of}
use btrsync.Receive.Loop.{run_process}
use btrsync.Receive.Receiver.{Receiver, Op, mkfile}

abbrev path_a : Bytes
path_a = 97 ∷ []

-- A file's creation and a write to it.
abbrev mkfile_a : SendCommand × CmdAttrs
mkfile_a = (
  btrfs_send_c_mkfile,
  (btrfs_send_a_path, path_a) ∷ (btrfs_send_a_ino, 5 ∷ 1 ∷ 0 ∷ 0 ∷ 0 ∷ 0 ∷ 0 ∷ 0 ∷ []) ∷ [],
)

abbrev write_attrs : CmdAttrs
write_attrs =
    (btrfs_send_a_data, 104 ∷ 105 ∷ [])
    ∷ (btrfs_send_a_path, path_a)
    ∷ (btrfs_send_a_file_offset, 0 ∷ 0 ∷ 0 ∷ 0 ∷ 0 ∷ 0 ∷ 0 ∷ 0 ∷ [])
    ∷ []

abbrev write_a : SendCommand × CmdAttrs
write_a = (btrfs_send_c_write, write_attrs)

-- The same attributes in another order.
abbrev write_attrs' : CmdAttrs
write_attrs' =
    (btrfs_send_a_path, path_a)
    ∷ (btrfs_send_a_file_offset, 0 ∷ 0 ∷ 0 ∷ 0 ∷ 0 ∷ 0 ∷ 0 ∷ 0 ∷ [])
    ∷ (btrfs_send_a_data, 104 ∷ 105 ∷ [])
    ∷ []

abbrev two_commands : List (SendCommand × CmdAttrs)
two_commands = mkfile_a ∷ write_a ∷ []

mkfile_a-IsCommand : IsCommand mkfile_a
unfolding others encode encode_loop encode_data lookup put_uint
mkfile_a-IsCommand = record {
  cmd_fits = omega arith;
  keys = (refl, (refl, tt));
  attrs_fit = ((omega arith, omega arith), ((omega arith, omega arith), tt));
  bytes = (
    (omega arith, tt),
    (
      (
        omega arith,
        (
          omega arith,
          (
            omega arith,
            (omega arith, (omega arith, (omega arith, (omega arith, (omega arith, tt))))),
          ),
        ),
      ),
      tt,
    ),
  );
  size_fits = omega arith;
}

write_a-IsCommand : IsCommand write_a
unfolding others encode encode_loop encode_data lookup put_uint
write_a-IsCommand = record {
  cmd_fits = omega arith;
  keys = (refl, (refl, (refl, tt)));
  attrs_fit = ((omega arith, omega arith), ((omega arith, omega arith), tt));
  bytes = (
    (omega arith, (omega arith, tt)),
    (
      (omega arith, tt),
      (
        (
          omega arith,
          (
            omega arith,
            (
              omega arith,
              (omega arith, (omega arith, (omega arith, (omega arith, (omega arith, tt))))),
            ),
          ),
        ),
        tt,
      ),
    ),
  );
  size_fits = omega arith;
}

-- A receiver that keeps the calls, the last one first.
abbrev log_receiver : Receiver
log_receiver = record {
  State = List Op;
  call = λ r op ops. (ok tt, op ∷ ops);
  pre_op = none;
  post_op = none;
}

abbrev libraries : Libraries
libraries = record {
  uuid_from_bytes = λ b. if length b == 16 then some b else none;
  codecs = record { zlib = λ b. none; lzo = λ b n m. none; zstd = λ b. none };
}

libraries-UuidLaw : UuidLaw libraries
libraries-UuidLaw b = refl

abbrev empty_ctx : ReceiveCtx log_receiver
empty_ctx = new_ctx log_receiver []

same_write : SameMap write_attrs write_attrs'
unfolding lookup
same_write j = ground arith

btrfs_crc32c-crc32c_example : btrfs_crc32c 0 (104 ∷ 105 ∷ []) ≡ crc32c 0 (104 ∷ 105 ∷ [])
btrfs_crc32c-crc32c_example =
    btrfs_crc32c-crc32c 0 (104 ∷ 105 ∷ []) (omega arith, (omega arith, tt))

binary_size-encode_example : binary_size write_attrs ≡ length (encode write_attrs) % 2 ^ 32
binary_size-encode_example = binary_size-encode write_attrs write_a-IsCommand.keys

parse_attrs-ne-stuck_example : parse_attrs (15 ∷ 0 ∷ 9 ∷ 0 ∷ 1 ∷ []) ≢ stuck
parse_attrs-ne-stuck_example = parse_attrs-ne-stuck (15 ∷ 0 ∷ 9 ∷ 0 ∷ 1 ∷ [])

parse_attrs-encode_example :
    (c' : CmdAttrs) × (parse_attrs (encode write_attrs) ≡ ok c') × SameMap c' write_attrs
parse_attrs-encode_example =
    parse_attrs-encode write_attrs write_a-IsCommand.keys write_a-IsCommand.attrs_fit

write_commands-frames_example :
    write_commands two_commands (new_writer buffer [])
    ≡ (none, record { writer = [] ++ (stream_header ++ frames two_commands); header_sent = true })
write_commands-frames_example = write_commands-frames mkfile_a (write_a ∷ []) []

scan_all-write_commands_example :
    (ds : List (CmdHeader × CmdAttrs)) × (scan_all 4
        (new_scanner (write_commands two_commands (new_writer buffer [])).1.writer false)
      ≡ ok (ds, end_err (last_cmd btrfs_send_c_mkfile (write_a ∷ []))))
    × SameCommands ds two_commands
scan_all-write_commands_example =
    scan_all-write_commands mkfile_a (write_a ∷ []) false 4
      (mkfile_a-IsCommand, (write_a-IsCommand, tt)) (omega arith)

run_process-command_of_example :
    run_process log_receiver libraries
      (record { len = 0; cmd = (command_of (mkfile path_a 261)).0; crc = 0 })
      (command_of (mkfile path_a 261)).1
      empty_ctx
    ≡ apply_op log_receiver libraries (mkfile path_a 261) empty_ctx
run_process-command_of_example =
    run_process-command_of log_receiver libraries libraries-UuidLaw 0 0 empty_ctx
      (mkfile path_a 261) (omega arith) (λ e. cc)

-- Three calls: a subvolume, a file in it, and its end.
abbrev uuid_a : Bytes
uuid_a = 1 ∷ 2 ∷ 3 ∷ 4 ∷ 5 ∷ 6 ∷ 7 ∷ 8 ∷ 9 ∷ 10 ∷ 11 ∷ 12 ∷ 13 ∷ 14 ∷ 15 ∷ 16 ∷ []

abbrev later_ops : List Op
later_ops = mkfile path_a 5 ∷ finish_subvolume ∷ []

abbrev all_ops : List Op
all_ops = subvol path_a uuid_a 7 ∷ later_ops

all_ops-IsOp : All IsOp all_ops
all_ops-IsOp = ((refl, omega arith), (omega arith, (tt, tt)))

subvol_a-IsCommand : IsCommand (command_of (subvol path_a uuid_a 7))
unfolding command_of set_path set_uuid set_ctransid insert others encode encode_loop encode_data
    lookup put_uint
subvol_a-IsCommand = record {
  cmd_fits = omega arith;
  keys = (refl, (refl, (refl, tt)));
  attrs_fit =
      ((omega arith, omega arith), ((omega arith, omega arith), ((omega arith, omega arith), tt)));
  bytes = omega arith;
  size_fits = omega arith;
}

mkfile_op-IsCommand : IsCommand (command_of (mkfile path_a 5))
unfolding command_of set_path set_ino insert others encode encode_loop encode_data lookup put_uint
mkfile_op-IsCommand = record {
  cmd_fits = omega arith;
  keys = (refl, (refl, tt));
  attrs_fit = ((omega arith, omega arith), ((omega arith, omega arith), tt));
  bytes = omega arith;
  size_fits = omega arith;
}

end-IsCommand : IsCommand (command_of finish_subvolume)
unfolding command_of others encode encode_loop encode_data lookup
end-IsCommand = record {
  cmd_fits = omega arith;
  keys = tt;
  attrs_fit = tt;
  bytes = tt;
  size_fits = omega arith;
}

all_ops-IsCommand : All IsCommand (map command_of all_ops)
all_ops-IsCommand = (subvol_a-IsCommand, (mkfile_op-IsCommand, (end-IsCommand, tt)))

log_receiver-CallsEnd : CallsEnd log_receiver
log_receiver-CallsEnd c op s = record { ends = ends_ok tt }

-- What the replay of the three calls computes to: each call once, in order, with the error limit of
-- a new context.
three_calls :
    replay log_receiver libraries btrfs_send_c_mkfile all_ops
      (record { ctx = empty_ctx; stream_errors = 0 })
    ≡ ok (
      none,
      record empty_ctx {
        current_offset = 3;
        receiver = finish_subvolume ∷ mkfile path_a 5 ∷ subvol path_a uuid_a 7 ∷ [];
      },
    )
unfolding replay command_of next_offset apply_op is_finish settle and_next and_loop end_subvolume
    finish_open call new_ctx set_subvol
three_calls = refl

process_send_stream-replay_example :
    process_send_stream log_receiver libraries
      (write_commands (map command_of all_ops) (new_writer buffer [])).1.writer
      empty_ctx
    ≡ replay log_receiver libraries
        (command_of (subvol path_a uuid_a 7)).0
        all_ops
        (record { ctx = empty_ctx; stream_errors = 0 })
process_send_stream-replay_example =
    process_send_stream-replay log_receiver libraries libraries-UuidLaw refl refl
      (subvol path_a uuid_a 7) later_ops empty_ctx all_ops-IsOp all_ops-IsCommand

process_send_stream-from_offset_example :
    process_send_stream log_receiver libraries
      (write_commands (map command_of all_ops) (new_writer buffer [])).1.writer
      (from_offset log_receiver 1 empty_ctx)
    ≡ replay log_receiver libraries (command_of (subvol path_a uuid_a 7)).0 later_ops (record {
      ctx = record empty_ctx {
        start_offset = 1;
        current_offset = 1;
        current_subvol_info = some (record { path = path_a; uuid = uuid_a; ctransid = 7 });
      };
      stream_errors = 0;
    })
unfolding opened_by
process_send_stream-from_offset_example =
    process_send_stream-from_offset log_receiver libraries libraries-UuidLaw refl refl
      (subvol path_a uuid_a 7) [] later_ops empty_ctx all_ops-IsOp all_ops-IsCommand empty_offset
      (omega arith)
  where
    empty_offset : empty_ctx.current_offset ≡ 0
    empty_offset = unfold new_ctx in refl

scan_all-ne-stuck_example : scan_all 6 (new_scanner (1 ∷ 2 ∷ 3 ∷ []) false) ≢ stuck
unfolding new_scanner
scan_all-ne-stuck_example = scan_all-ne-stuck 6 (new_scanner (1 ∷ 2 ∷ 3 ∷ []) false) (omega arith)

process_send_stream-ne-stuck_example :
    process_send_stream log_receiver libraries (98 ∷ 116 ∷ []) empty_ctx ≢ stuck
process_send_stream-ne-stuck_example =
    process_send_stream-ne-stuck log_receiver libraries log_receiver-CallsEnd tt tt (98 ∷ 116 ∷ [])
      empty_ctx

btrfs_crc32c-one_byte_example :
    btrfs_crc32c 0 ((1 ∷ []) ++ 2 ∷ 3 ∷ []) ≢ btrfs_crc32c 0 ((1 ∷ []) ++ 4 ∷ 3 ∷ [])
btrfs_crc32c-one_byte_example =
    btrfs_crc32c-one_byte 0 (1 ∷ []) 2 4 (3 ∷ []) (omega arith) (omega arith) (omega arith)
      (omega arith) (omega arith) (omega arith)

-- The bytes of `mkfile_a`, of which the fifth, its path, is changed.
abbrev mkfile_rest : Bytes
mkfile_rest = 3 ∷ 0 ∷ 8 ∷ 0 ∷ 5 ∷ 1 ∷ 0 ∷ 0 ∷ 0 ∷ 0 ∷ 0 ∷ 0 ∷ []

abbrev corrupted : Scanner
corrupted = record {
  reader =
      put_cmd_header (command_header btrfs_send_c_mkfile mkfile_a.1)
      ++ (((15 ∷ 0 ∷ 1 ∷ 0 ∷ []) ++ 98 ∷ mkfile_rest) ++ []);
  ignore_checksums = false;
  header_parsed = true;
  scan_err = none;
  cur_hdr = zero_cmd_header;
  cur_attrs = [];
}

mkfile_bytes : encode mkfile_a.1 ≡ (15 ∷ 0 ∷ 1 ∷ 0 ∷ []) ++ 97 ∷ mkfile_rest
unfolding encode encode_loop encode_data lookup put_uint
mkfile_bytes = refl

read_command-corrupted_example :
    read_command corrupted ≡ (err invalid_command_checksum, record corrupted { reader = [] })
read_command-corrupted_example =
    read_command-corrupted mkfile_a (15 ∷ 0 ∷ 1 ∷ 0 ∷ []) 97 98 mkfile_rest [] corrupted
      mkfile_a-IsCommand mkfile_bytes (omega arith) (omega arith) refl refl

-- Two streams that differ in the second command.
find_diff_offset-prefix_example :
    find_diff_offset (stream_of two_commands) (stream_of (mkfile_a ∷ mkfile_a ∷ [])) ≡ ok (1, none)
find_diff_offset-prefix_example =
    find_diff_offset-prefix (mkfile_a ∷ []) (mkfile_a ∷ []) [] [] write_a mkfile_a
      (mkfile_a-IsCommand, (write_a-IsCommand, tt)) (mkfile_a-IsCommand, (mkfile_a-IsCommand, tt))
      (same_mkfile, tt) other_command (omega arith)
  where
    same_mkfile : Same (header_of mkfile_a) (header_of mkfile_a)
    same_mkfile = inr (refl, refl, refl)

    other_command : ¬ Same (header_of write_a) (header_of mkfile_a)
    other_command = unfold command_header in ground arith

-- Three snapshots, the last one long after the others.
abbrev snap_at : ℕ → RootInfo
snap_at t = record {
  root_id = 0;
  root_offset = 0;
  flags = 0;
  ref_tree = 0;
  dir_id = 0;
  top_id = 0;
  generation = 0;
  original_generation = 0;
  creation_time = t;
  send_time = 0;
  receive_time = 0;
  uuid = [];
  parent_uuid = [];
  received_uuid = [];
  path = [];
  name = [];
  full_path = [];
  deleted = false;
}

abbrev two_later : List RootInfo
two_later = snap_at 15 ∷ snap_at 40 ∷ []

three_chunked :
    to_timed_chunks (λ l. l) (snap_at 10 ∷ two_later) (pos 10)
    ≡ (snap_at 10 ∷ snap_at 15 ∷ []) ∷ (snap_at 40 ∷ []) ∷ []
unfolding to_timed_chunks chunk_loop lt_int
three_chunked = refl

to_timed_chunks-flatten_example :
    flatten (to_timed_chunks (λ l. l) (snap_at 10 ∷ two_later) (pos 10)) ≡ snap_at 10 ∷ two_later
to_timed_chunks-flatten_example = to_timed_chunks-flatten (λ l. l) (snap_at 10) two_later (pos 10)

to_timed_chunks-Within_example :
    All (Within 10) (to_timed_chunks (λ l. l) (snap_at 10 ∷ two_later) (pos 10))
to_timed_chunks-Within_example =
    to_timed_chunks-Within (λ l. l) (snap_at 10) two_later 10 (snap_at 10) two_later (omega arith)
      refl (omega arith, (omega arith, (omega arith, tt)))

-- A MKFILE command without an inode number.
run_process-missing_example :
    (k' : SendAttribute) × (run_process log_receiver libraries
        (record { len = 0; cmd = btrfs_send_c_mkfile; crc = 0 })
        ((btrfs_send_a_path, path_a) ∷ [])
        empty_ctx
      ≡ (err (missing_attribute k'), empty_ctx))
run_process-missing_example =
    run_process-missing log_receiver libraries
      (record { len = 0; cmd = btrfs_send_c_mkfile; crc = 0 }) ((btrfs_send_a_path, path_a) ∷ [])
      empty_ctx btrfs_send_a_ino (btrfs_send_a_path ∷ []) [] known absent
  where
    known :
        lookup btrfs_send_c_mkfile required
        ≡ some ((btrfs_send_a_path ∷ []) ++ btrfs_send_a_ino ∷ [])
    known = unfold required lookup in refl

    absent : lookup btrfs_send_a_ino ((btrfs_send_a_path, path_a) ∷ []) ≡ none
    absent = unfold lookup in refl
