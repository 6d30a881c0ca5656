-- ===== src/Lib.antt =====
-- TextbookLens: a verification library for the Rust core of the desktop application under
-- src-tauri/src. The application imports textbooks, indexes their pages with the help of an AI
-- provider, and answers questions about them. These parts are modelled, each on its own:
--
-- Gate, src-tauri/src/maintenance/gate.rs and domain/maintenance.rs. The gate that admits either
-- normal operations or one maintenance task. Gate/Defs has the state and its totals, Gate/Ops the
-- operations: each is a function of the gate that returns the new gate and the result, and keeps
-- the name of the method (try_acquire_normal, register, drop_queued for `Drop`, shutdown ...). An
-- async method is a poll: poll_normal and poll_maintenance are one turn of its loop. The mutex
-- makes each locked block one step, so Gate/System has the permits and waiters beside the gate,
-- and a relation Step with an event per call; Reach is what a fresh gate can reach. The number
-- `changed` counts the calls of notify_waiters. Counters are u32 and tickets u64 with their
-- checked additions.
--
-- Sse, src-tauri/src/ai/stream.rs. Sse/Scanner is BoundedSseSource: bytes are numbers, `usize` has
-- 64 bits. Sse/Decoder is decode_sse: `turn` is one turn of its loop and `run` the stream that a
-- list of inputs gives (at each turn, whether the token is cancelled and what the source yields).
-- The event mapper of a provider is a parameter. The parser of the crate eventsource-stream is
-- outside; the counts of the scanner are compared with the data buffer of the standard for
-- server-sent events, written out in Sse/Format.
--
-- Chunker, src-tauri/src/retrieval/chunker.rs. The cutting of a book's text into overlapping
-- chunks. Text is a list of code points. The operations of f64 are the parameter Float64 with the
-- laws FloatLaws, which rounded decimals meet (Chunker/Floats). The loop of into_chunks runs on
-- fuel; the length of a section and one is enough when the least and the most size are at least
-- two, since each turn then starts behind the turn before.
--
-- Index, src-tauri/src/indexing/state.rs, domain/indexing.rs, db/indexing.rs and the CHECK
-- constraints of src-tauri/migrations/0009_ai_local_index.sql. Index/Status has the states and the
-- legal transitions, Index/Codes their texts, Index/Rows the tables: an UPDATE changes the rows
-- that its WHERE clause picks, unless one of them would break a constraint. Index/Pages has the
-- operations on pages, Index/Runs those on runs with the registry of running attempts,
-- Index/Creation the one that adds a page; each returns the database and the result, and a
-- transaction that ends in an error gives back the database before it. Identifiers and timestamps
-- are numbers that the caller passes in, so `Uuid::new_v4` and the clock are arguments.
--
-- Validator, src-tauri/src/indexing/validator.rs. The checks of what a model says of a page:
-- Validator/Texts has those of texts and formulas, Validator/Tables that of tables. Code points
-- are numbers, and what the Rust library says of them (White_Space, Cc, bytes in UTF-8) is written
-- out. The set of taken places is a list.
--
-- Index/Recovery, src-tauri/src/indexing/recovery.rs. The start of the application after a crash:
-- Index/Recovery/Loop has recover_interrupted_pages and its loop over the pages that were in work.
-- The scratch files are a set of pairs of a page and an attempt; which calls the file system
-- refuses is a parameter, so that each of its errors is a result.
--
-- Learning, src-tauri/src/learning/registry.rs and domain/panel.rs. The registry of the requests
-- that a learner makes, its subscribers and the guard of a deletion: Learning/Panel has the
-- records with their validation, Learning/Entry what each call does to one request,
-- Learning/Registry the state with its methods. The mutex makes each method one step;
-- Learning/Histories has the calls in any order. Time is a number of nanoseconds. The loop of
-- trim_terminal_entries runs on the number of the entries as fuel, which is enough since each turn
-- removes one.
--
-- Retrieval, src-tauri/src/retrieval/budget.rs. The budget of a prompt in the window of a model,
-- with u32 and u64 and their saturating operations. Then context.rs and citations.rs beside it:
-- the candidates for the context of a question, their order, the removal of duplicates, citations,
-- and the packing under the budget (Retrieval/Packing, with Candidates, Overlap, Citations and
-- Validation). The estimator of a request is a parameter. Texts are code points, and the
-- rectangles of a locator plain numbers.
--
-- Errors, src-tauri/src/errors/app_error.rs. The codes of errors that the parts share.
--
-- Base has the shared tests, lists, results and machine words. Modules named Examples hold the
-- runs at concrete inputs.
--
-- Not modelled: network and file I/O but for the scratch files, the providers' JSON, document
-- parsers, the SQL of the other repositories, the front end, and the coordinator above the page
-- operations.
pub mod Base
pub mod Errors
pub mod Gate
pub mod Sse
pub mod Chunker
pub mod Index
pub mod Validator
pub mod Retrieval
pub mod Learning
