-- ===== src/Lib.antt =====
-- A model of the core of gpt-owu-bridge, which keeps a chat of Open WebUI in step with a shared
-- ChatGPT conversation. A snapshot of the share is read and parsed; a preview compares it with the
-- snapshot before and with the chat as it was last verified; a plan made from the preview is
-- stored, confirmed and executed by an operation; what was written is read back, and only then a
-- binding between share and chat is installed or moved to its next version.
--
-- The files and the code that they are about:
--   Domain         internal/domain/types.go: the records that the components exchange.
--   Domain/Hash    the two `ComputeHash`, over a record `Codec` of what encoding/json and
--                  crypto/sha256 do; a property that needs a law of theirs names it.
--   Diff/*         internal/diff/preview.go. `validateSource` and `validateTarget` are in
--                  Diff/Validate, the comparisons of messages in Diff/Compare, `compareTarget`,
--                  `titleChange` and `planID` in Diff/Target, `Preview` in Diff/Run as `preview`.
--                  ValidSource, ValidTarget, Inversion, Kept, Applicable, Edited and Accounts are proofs.
--   Storage/Types  internal/storage/types.go: records, kinds and errors.
--   Storage/Tables internal/storage/migrations/001_initial.sql: the tables as lists of rows, and
--                  insertions that meet the unique keys, the partial index of locks, the
--                  references and the checks.
--   Storage/Records, Operations, Prepare, Transition, Mappings, Allowed, Bindings
--                  internal/storage/records.go, operations.go and bindings.go: one function for
--                  each call of the store, named after it in lower case with underscores.
--   Storage/Calls  the writing calls as a data type, and a run of them.
--   Storage/Rows, Listing, Moves, Evidence, Preserved, Installed, Finalized, Updated, Completed,
--   Replay, Recovery, Mapped, Versions  proofs about them.
--   Source/Values, Graph, Citations, Scan, Snapshot  internal/source/chatgpt/parser.go:
--                  `buildSnapshot` and what it calls, on decoded values; objects keep their fields
--                  in a list, in the order in which Go's map is taken to give them. What Go's
--                  library does with times, addresses and the pattern of citations is a record
--                  `Library`. Passes, Found, Parsed and Ancestry are proofs.
--   Source/Decode, Decoded  the decoder of a table of references in the same file, with its state
--                  and memo as a list of what is known of an index; `Means` is what an index of a
--                  table stands for without a memo. A record `Numerals` holds what Go's library
--                  does with the digits in a text.
--   Source/Share   `ParseHTML` in the same file from the extracted tables on, as `parse_tables`.
--                  The clock's time is an argument. Named, Chosen and Shared are proofs about it.
--   Owu            internal/owu: the records of the target client and `MatchSnapshot`. What edits
--                  and reads the JSON of a chat document is a record `Documents`.
--   Syncer/Types, Exec  internal/syncer/service.go: the service, the world that it acts on, and
--                  methods as functions on that world that may stop early with an error.
--   Syncer/Checks, Repository, Moves, Plans, Preview, Create, Update, Service
--                  its methods, each named after it, but `preview_sync`, `apply_sync`,
--                  `operation_status` and `recover_operation` for the four that are called from
--                  outside, and `conclude_create` and `conclude_update` for finishCreate and
--                  finishUpdate. `history` serves requests one after another.
--   Syncer/Safe, Asking, Kept, Blocks, Silent  rules for what a method keeps.
--   Syncer/Sound, Sending, Once, Writes, Quiet, Answers, Verified  proofs about what is sent and
--                  what is reported.
--   Examples/*     concrete data, a store in use, and the theorems at them.
--
-- A call of the store holds its mutex for its whole length and writes in one transaction or in one
-- statement, so it is a function from a database to a result with the database that it leaves; an
-- error leaves the database as it was. The installation, which is written once and only read
-- afterwards, is an argument, and so is the clock's time where a call reads it. Times are natural
-- numbers of nanoseconds, with zero for Go's zero time; the columns hold what `UnixNano` gives for
-- them, without the limits of its 64 bits. Lists do not tell Go's nil slice from an empty one,
-- which `reflect.DeepEqual` in `targetEqual` does. The version of a binding is computed in 64 bits,
-- and the column holds versions above zero and below 2 ^ 63. Go's maps are association lists in
-- which the last value of a key counts. No function needs fuel: a recursion is on a list, and those
-- of `ancestry` and `decode` are on the depth that is left, which the code checks.
--
-- The service calls the store, the target, the clock and the source of random ids. The store is the
-- modelled one; each call of it may also be lost, or be carried out and reported as an error. The
-- others are functions over a state of their own, of which nothing is assumed. A write is counted
-- as sent when the target is called, whatever it answers. A process that is killed is a world in
-- which each later call of the request fails; calls of one process do not overlap. The clock is
-- also read where `validatePlanOwnership` refuses a plan, where the code does not get to it.
--
-- Not modelled: faults of the disk and the driver below the calls of the store, cancelled contexts,
-- the texts of errors beyond the code's own messages, files and permissions
-- (internal/storage/store.go), the migration runner, the HTTP client and the JSON documents of
-- internal/owu, the extraction of the tables from the page of a share (`extractTables` of
-- internal/source/chatgpt/parser.go, with what `ParseHTML` does before it, and fetch.go), and the
-- components internal/connector, internal/config, internal/httpserver and cmd/gpt-owu-gate.
pub mod Base
pub mod Domain
pub mod Diff
pub mod Storage
pub mod Source
pub mod Owu
pub mod Syncer
pub mod Examples
