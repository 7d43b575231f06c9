-- ===== src/Lib.antt =====
-- Verification of btrsync: send streams of btrfs, how they are written and read (pkg/sendstream),
-- and how a stream is applied to a receiver (pkg/receive).
--
-- A writer (pkg/sendstream/writer.go) puts a stream header and then commands into a stream. A
-- command is a header (length, number, checksum) and attributes. A scanner
-- (pkg/sendstream/scanner.go) reads the commands again. `ProcessSendStream`
-- (pkg/receive/receive.go) takes the commands of a scanner one by one, looks up the process
-- function of each (pkg/receive/send_ops.go), and that calls a method of the receiver
-- (pkg/receive/receivers/receiver.go).
--
-- Common: names shared by all parts: byte strings, Go maps as lists of entries, and `Outcome`, the
-- result of a Go call: a value, an error, a run-time panic, or `stuck`, a loop that ran out of
-- fuel.
--
-- Btrfs/EncodedWrite: `EncodedWriteOp` and `Decompress` of pkg/btrfs/encoded_write.go. The
-- decompressors are parameters.
--
-- Sendstream/Commands, Attributes, Headers, Attrs and its children: pkg/sendstream/commands.go;
-- Attrs/Setters, Getters and Build hold a function per method and constructor. Sendstream/Crc32:
-- pkg/sendstream/crc32.go. Sendstream/Scanner: `Scanner`, whose reader is the bytes that it has
-- still to give. Sendstream/Writer: `Writer`, over any writer. Sendstream/Stream: both together.
--
-- Receive/Receiver: the interface, with a call of a method as a value of `Op`. Receive/Context:
-- `receiveCtx` and the options. Receive/Process and its children: the process functions.
-- Receive/Loop: the loop of `ProcessSendStream`, a round of it as `process_command`.
-- Receive/Commands, Dispatch, Attributes, Replay and Ends: what the loop does with commands.
--
-- Bounds: integers are natural numbers, and each operation writes out its wrap-around. Fuel:
-- `parse_attrs` takes the number of bytes, since a round takes two of them at least, and
-- `process_send_stream` one more than the number of bytes of the stream, since a command takes ten
-- at least.
--
-- Receivers: the receivers of pkg/receive/receivers. Os is what they use of the operating system, a
-- parameter; Directory is receivers/directory/directory.go and Local receivers/local/local.go, with
-- the operations on files that they share in Files, SshDir is receivers/sshdir/sshdir.go over its
-- Client, Nop and Dispatched are receivers/nop and receivers/dispatch; MemFs is
-- receivers/memfs/memfs.go, and MemFs/Modes what it records of a renamed file. Resume and Saving: a
-- directory receiver in the loop; Local/Parent: the parent of a snapshot.
--
-- Config: the settings of pkg/cmd/config/config.go, with `Resolve…` in Config/Resolve and
-- `Validate` in Config/Validate; Valid and Mirrors: what follows.
--
-- Btrfs/RootTree: the tree of pkg/btrfs/btrfs_rb_tree.go on a heap of nodes, its iterations in
-- Iterate and what is built from them in Filter. Its functions run on fuel, since a tree that
-- insertions made may have cycles.
--
-- Receive/Required: the attributes without which a command is refused. Receive/Diff:
-- `FindDiffOffset` of pkg/receive/diff.go. Queue: `ConcurrentQueue` of pkg/cmd/queue/queue.go as a
-- step relation, with the places where a goroutine waits as data; Queue/Bounds and Queue/Deadlock:
-- what its runs do.
--
-- Snapmanager: `toTimedChunks` of pkg/cmd/snapmanager/snapmanager.go, with the sort of the standard
-- library as a parameter; Snapmanager/Manager: `SnapManager`; Snapmanager/Pruning: what it may
-- delete; Snapmanager/Snaputil: pkg/cmd/snaputil/snaputil.go.
--
-- Not modelled: logging, cancellation by the Go context, system calls and ioctls, the export of
-- files in memory for FUSE, the sync managers, and the command line. `uuid.FromBytes` of another
-- package is a parameter, with its documented behaviour as `UuidLaw`.
pub mod Common
pub mod Btrfs
pub mod Sendstream
pub mod Receive
pub mod Receivers
pub mod Config
pub mod Queue
pub mod Snapmanager
pub mod Tests
