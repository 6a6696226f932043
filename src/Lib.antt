-- ===== src/Lib.antt =====
-- Happy-Active-Everywhere: a verification library for the peer-to-peer folder synchronization.
--
-- The program keeps a version set for each path of a shared folder (src/model.rs), whose revisions
-- carry vector clocks (src/versions.rs). Devices exchange version sets and file contents over
-- authenticated streams and join the sets; each device shows one selected head in its file system.
--
-- Files and the code that they model:
--   Base              what all parts share: results (`anyhow::Result`), lists, `BTreeMap` as an
--                     association list in key order, `Ord`, text as code points with its UTF-8
--                     length, and `valid_hash` of src/storage.rs.
--   Versions          src/versions.rs: `Clock`, `validate`, `advance`, `merge`, `relation`; the
--                     child Reconcile has `reconcile`. Causality, Advance and Merge prove.
--   Model             src/model.rs: `Content`, `Revision`, `Versions`, `join`, `edit`, `selected`.
--                     The children Sorting, Join, Maximal, Converge, Normal, Grouping, Fixpoint,
--                     Edit and Selected prove.
--   Model/FilePath    `validate_path` of src/model.rs; FilePath/Safe proves.
--   Storage           src/storage.rs: `Manifest` with `from_file`, `validate` and `block_len`, and
--                     `Receiver` with `put` and `missing_from`. FileBytes has reads and writes at an
--                     offset. Blocks, Reading, Manifests, Puts, Rounds and Missing prove; Sample is a
--                     small file.
--   Transport         src/transport.rs: `send_object` and `receive_object`, with `send_blocks` and
--                     the stream between. Words, Sending, Receiving, Content and Transfer prove.
--   Wire              src/wire.rs: `packet`, `send`, `work` and `read`. Streams and Frames prove.
--   Share             src/share.rs: the tables of the index with `save`, `records`, `stage` and the
--                     cursors. Saving, Remembering and Staging prove.
--   Share/Scan        `scan` with `scan_inner`. Steps, Seen, Unseen and Folder prove.
--   Share/Commit      `commit_incoming`, `apply_pending` and `apply_local`. Joining, Waiting, Applying and
--                     Whole prove.
--   Share/Review      `approve_deletion`.
--   Share/Choosing    `choose` and `object_received`. Chosen proves.
--   Share/Access      the configuration of a folder: `read_config`, `grant`, `check_access` and
--                     `authorize` of src/share.rs. Grants proves.
--   Identity          src/identity.rs: `trust`, `revoke`, and the checks of a peer. Trust proves.
--   Jobs              src/jobs.rs: the supervisor with `open`, `persist` and `check_deployment`. Saving has
--                     `save_inner` and `set_enabled`; Turns has `tick`, `shutdown`, and the operations in any
--                     order; Reader has the thread that reads a child's output, and proves. Supervision,
--                     Changing, Ticking, Histories, Permission and Deploying prove.
--   Central           the types of src/central/mod.rs, and the tables of src/central/store.rs.
--   Central/Rows      what the statements of src/central/store.rs do with rows, and `equal_secret` of
--                     src/management.rs.
--   Central/Store     the operations of src/central/store.rs. Calls has them in any order; Diagram,
--                     Delivering, Moving, Commands, Enrolling, Owners, Polling, Telling, Recording
--                     and Handing prove.
--   Central/Agent     src/central/agent.rs: the journal and the rounds of `run`. Executions and Once prove.
--   Root              src/root.rs: the folder's files and the journal, with `apply` and `recover`.
--                     Keeping, Publishing and Crash prove.
--   Sync              src/sync.rs: `send_metadata` and `read_metadata`. Rows and Exchange prove.
--   */Tests           the operations and the theorems at concrete inputs.
--
-- What other code provides is a parameter: `Codec` has the hash of a revision's JSON text
-- (`Revision::id`, by blake3 and serde_json) and the length of a version set's JSON text; `hash` is
-- the hexadecimal BLAKE3 hash of bytes, and `encode` and `decode` are the JSON text of a message and
-- its parser. `collision_key` is the form of a path that its case and Unicode variants share. What
-- identities and the folder answer in an operation on the index is a parameter of it: `authorized`,
-- `check_root`, `recover`, `visited` (the paths found, with the content that `capture` gives) and
-- `apply` (`Root::apply` as a function on the state of the folder, for which Root has a model).
--
-- `accepts` is what the TLS library says of a certificate; what the locks, the clock, the processes and
-- the writing of a file answer is a parameter of the operation. `Outside` has what the server takes from
-- other code: the hash of a secret, the printer and the parser of operations, and some tests. Jobs
-- calls `new` of Identity and `check_access` of Share/Access. A mutex is never poisoned.
--
-- Where a theorem needs that the hash tells revisions apart it says so by `Distinct`, for the revisions
-- at hand alone; where it needs that a hash has 64 hexadecimal digits, by `IsHexHash`.
--
-- Numbers are unbounded but where the code depends on their width: counters of a clock are bounded as
-- by `checked_add`, block positions wrap at 64 bits, words of a stream have 64 or 32 bits. Loops over
-- lists are recursions on the list. The loop of `from_file` has the length of the file as fuel, since
-- each round reads at least one byte; the loop of `missing_from` counts the blocks that are left; the
-- loops over pages of a table have the number of its rows as fuel, or one more, since each page goes on
-- to a later key; the loop of `apply_pending` has one more than the number of the rows, since each page
-- takes at least one row from those that wait, and where fuel is used up its result is `none`; the
-- loop of `read` has one more than the length of the stream, since each round takes at least four bytes,
-- and its result is `none` likewise.
--
-- A transaction of the index, or of the server's tables, that fails leaves no trace, so that operations
-- return the new tables or an error. The agent's journal changes with each statement.
--
-- An operation of Root runs without changes of the disk by other programs in between. A record of the
-- journal can stand there without its text; other writes are single steps.
--
-- Not modelled: the receiver's install journal and its recovery, the walk over a folder, timeouts and
-- the window of blocks in flight, the creation of keys and the TLS configurations, the processes
-- themselves, the HTTP servers, the two listings named `status`, the user interface, and the parts that the manifest lists as such.
pub mod Base
pub mod Versions
pub mod Model
pub mod Storage
pub mod Identity
pub mod Root
pub mod Share
pub mod Jobs
pub mod Central
pub mod Sync
pub mod Wire
pub mod Transport
