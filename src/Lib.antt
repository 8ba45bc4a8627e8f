-- ===== src/Lib.antt =====
-- NX-Nexus: the container formats and the state that a file manager for a game console keeps.
--
-- The program shows the console's storages to a computer over MTP, and installs packages that it is
-- sent. A package is a PFS0 (NSP) or, on a card image (XCI), an HFS0; its manifest (CNMT) lists the
-- contents; a content may be stored compressed (NCZ). A package that does not exist as a file is
-- produced while it is read (the NSP builder). All of these parsers are given untrusted bytes.
--
-- Which file models what:
--   Base, Base/*      shared names, Boolean tests, lists and slices over the native numbers
--   Outcome           `NexusFmtResult` of include/nexus/format.h. A function of the formats gives a
--                     value, an error code, or `fault`: an access outside the caller's buffer,
--                     which C leaves undefined. A theorem that says `≢ fault` is memory safety.
--   Format            src/format/format.c: nexusRdU8 .. nexusRdU64, nexusRdU40, nexusAddOverflows,
--                     nexusMulOverflows. A buffer is the list of the bytes its length covers.
--   CString           strlen, strcmp and memchr as the formats use them
--   Search            the loop of the first-match lookups (partitionFsFindEntry,
--                     cnmtFindContentByType)
--   PartitionFs       src/format/partition_fs.c: `init` is partitionFsInit, `peek_header_size` is
--                     partitionFsPeekHeaderSize, `get_entry`, `find_entry`
--   NspBuilder        src/format/nsp_builder.c: nspBuilderInit, nspBuilderAdd, nspBuilderFinalize,
--                     nspBuilderTotalSize, nspBuilderHeader, nspBuilderLocate. The builder is a
--                     record that each operation returns changed, on errors too.
--   Hex               cnmtFormatContentId of src/format/cnmt.c and nexusInstallParseContentId of
--                     src/installer/installer.c
--   Cnmt              src/format/cnmt.c
--   Ncz               src/format/ncz.c
--   Xci               src/format/xci.c, over PartitionFs for the partitions' table
--   Install           include/nexus/installer.h: the installer, with the backend and the decoder as
--                     records of hooks over a state of their own. A NexusNczOps that is fed answers
--                     with an `Emission`, the bytes it gives to the sink one after the other.
--   Install/Classify, Entries, Feed, Finish
--                     src/installer/installer.c: nexusInstallClassify, build_entries,
--                     nexusInstallFeed with route_bytes, ncz_sink and fail, and nexusInstallFinish
--                     with build_meta, nexusInstallAbort. A round of the loop in nexusInstallFeed is
--                     `turn`; a part that may fail gives an `Attempt`, the session after it.
--                     Install/Life has the step relation of a session. `Placeholder` in Install/Tracked
--                     says of a backend which hooks open and close its content.
--   Headers           what cnmtInit, ticketInit and xciParseHeader share
--   Mtp               the MTP responder, as a monad of state and early exit (Mtp/World): an operation goes
--                     on with a value, or it has returned 0 or a failure. Its state is g_mtp, the object
--                     table, the stores and the USB device. `Stores` holds the hooks of
--                     NexusStorageOps in include/nexus/storage.h, `Device` the calls of
--                     src/usb/usb_transport.c and what else libnx gives; both are parameters.
--   Mtp/Codes         include/nexus/mtp_types.h
--   Mtp/Container, Writer, Reader
--                     src/mtp/mtp_container.c
--   Mtp/Transport     src/mtp/mtp_server.c: the data and response phases
--   Mtp/Path, Reply, About, Session, Listing, Objects, Upload, Edit, Handle
--                     src/mtp/mtp_ops.c: one function for each handler, named as in C, and
--                     `handle_command`, which is mtpHandleCommand. Mtp/Session has mtpServerResetSession,
--                     Mtp/Handle mtpServerRunOnce as `run_once`.
--   Mtp/Says, Answers, Dispatch
--                     proofs on what goes over the cable
--   Mtp/Keeps, Bears, Ordinary, Switch, Serve
--                     predicates of the world that operations keep, handler by handler, and over any
--                     number of transactions (`Served`)
--   Mtp/Wire, Inside  proofs on the container and on the writer
--   Mtp/Names, Confined, Writing, Goes, Uploads, Halfway
--                     proofs on the paths and on the uploads. `Writing` says of the stores what
--                     include/nexus/storage.h says of write_begin, write_chunk and write_end.
--   Samples           test data that the Tests modules share
--   Ticket            src/format/ticket.c
--   ObjectDb          src/storage/object_db.c: the table of MTP handles. Each function is an operation on
--                     the state under the mutex; ObjectDb/Fate has the step relation of a session.
--                     Whether `realloc` succeeds is a parameter of `intern`.
-- A parent module holds the definitions; its children hold what is proved of them, by subject, and
-- its Tests the concrete runs. Xci uses PartitionFs through `find_entry` and `get_data_offset`;
-- NspBuilder writes what PartitionFs reads.
--
-- Install uses PartitionFs, Cnmt, Ticket and Hex for the parsing, and puts the meta record together
-- from what they give.
--
-- Mtp calls ObjectDb for its handles, and looks up a store anew where the C code keeps a pointer to it.
--
-- Bounds and fuel. `feed_loop` of Install/Feed runs on fuel: `feed_fuel` is the number of the
-- bytes, 64 for the entries, and 4 for the changes of stage, and each round uses a byte, an entry or
-- a stage. The loops `recv_rest`, `recv_chunks` and `range_chunks` of Mtp run on the number of the bytes
-- that are still to come, and each round takes at least one. Every other loop is on the list it walks or on the number of rounds that its C counter
-- makes. Numbers are natural; a `u64` operation that may wrap round is
-- written with `% 2 ^ 64` or through the overflow checks, and hypotheses name the C types of the
-- arguments (a byte is below 256, a `u64` below 2 ^ 64).
--
-- Not modelled. Tests for NULL arguments, the texts of error codes and enumerations, logging.
-- The allocation of the responder's two buffers is `server_init`, and mtpServerExit frees them. The
-- backend of the installer, the NCZ decoder, the storages behind the hooks, the USB transport, the network
-- and the console's services are not modelled; most of the latter are calls of the operating system.
--
pub mod Base
pub mod Outcome
pub mod Format
pub mod CString
pub mod Search
pub mod Hex
pub mod PartitionFs
pub mod NspBuilder
pub mod Cnmt
pub mod Ncz
pub mod Xci
pub mod Samples
pub mod ObjectDb
pub mod Ticket
pub mod Headers
pub mod Install
pub mod Mtp
