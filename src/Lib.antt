-- ===== src/Lib.antt =====
-- ShipFlow Desktop: the core of its Rust service and of its local workspace engine. The service
-- (crates/shipflow-service-runtime) answers shipment, bag and manifest lookups from an in-memory
-- cache in front of slow upstream sources; the workspace engine (crates/shipflow-workspace-engine)
-- keeps spreadsheets and import jobs in SQLite and fills the rows of a sheet by running the items
-- of a job.
--
-- Text is a list of UTF-8 bytes. Times are natural numbers: milliseconds for the cache, any clock
-- for the store. usize and u64 are 64 bits wide; wrapping and saturating operations are written
-- out.
--
-- Prelude: shared notation, lists, texts (with `str::trim` and decimal numbers), machine words,
-- results of fallible code, `HashMap` as a list of entries with distinct keys in iteration order,
-- and SQL tables as lists of rows (Prelude/Table).
-- Core.Model: the lookup kinds and errors of crates/shipflow-core/src/model.rs.
-- Core.Upstream: crates/shipflow-core/src/upstream.rs, the normalisation of lookup ids and the
-- retry loop of fetch_lookup_response. The answers to its requests are any sequence, the hash
-- behind the jitter is a parameter, and the delays are given back with the result.
-- RuntimeOptions: crates/shipflow-service-runtime/src/runtime_options.rs, the options that an
-- operator may tune and `RuntimeOptions::validate`. Whether a path is absolute is a parameter.
-- Backpressure: crates/shipflow-service-runtime/src/upstream_backpressure.rs, the limit on
-- concurrent lookups and its bounded queue. tokio's semaphore is a parameter, with laws on its
-- permits, each of which is available, assigned to a task in its line, or held; the atomic counter
-- is changed by compare-and-swap loops, of which each pass is a turn of its own, and tasks take
-- turns in any order.
--
-- LookupCache: crates/shipflow-service-runtime/src/lookup_cache.rs. Entry has the policy, entries,
-- slots, errors and keys; Metrics the counters and the summaries; Prune the eviction by expiry,
-- count and bytes; Actions each critical section of `LookupCacheState` as a function of the state
-- under the lock; Actions/Flights interleaves them with the fetches in flight, one step for each
-- hold of the lock; Actions/Requests follows one request through `resolve_cached_lookup`. A
-- `Notify` is a number, compared as `Arc::ptr_eq` compares it. JSON texts are opaque. The
-- persistent cache behind it enters as the payload that a hydration brings.
-- Storage: crates/shipflow-workspace-engine/src/storage.rs with the types of imports.rs and
-- jobs.rs. Tables has the rows, statuses and errors; Rows the upserts of sheet rows, and below it
-- Lookups (lookup results written to rows, plain and conditional, tracking records, recovery),
-- Positions (the order of a sheet, deletions and the renumbering after them), GeneratedIds (the
-- search for a free row id) and Transfers (appends, copies and moves); Jobs the import jobs:
-- recounts and claims, and below it Attempts (starting and finishing attempts), Lifecycle
-- (creation, cancellation, recovery, retries) Steps, which interleaves them, and Once, on an
-- attempt's results after any steps. A transaction is a function to a result (Prelude/Outcome),
-- and an error leaves the old store; recover_interrupted_import_jobs and retry_import_job_failed
-- run outside a transaction, so what they wrote before an error of the database itself is outside
-- the model. Keys, foreign keys and cascades that the schema declares are written out where an
-- operation relies on them. A search for a row id that ends without one, which takes 2^32 - 1
-- rows, would not end in the code; `endless` stands for it. The columns created_at, updated_at,
-- next_retry_at and fetched_at, which no operation here reads, and the analytics cache are left
-- out.
-- Tracking: crates/shipflow-workspace-engine/src/tracking.rs, with the progress event of
-- events.rs. The module itself has the id that a displayed tracking id is looked up by; Rows the
-- writes of an answer to a row and refresh_sheet_row; Batches the setup of
-- refresh_sheet_rows_with_progress, which groups rows by lookup id and activates the first groups;
-- Answers its callback and the loops that fail rows without an answer. While a refresh waits,
-- other connections may write: such a write is any function on the store, and it and the answers
-- come in any order. The writing of blobs, what serde makes of a response and the text of an error
-- are parameters; log lines, the check of the document generation and failures of the database
-- itself are left out.
-- ImportEngine: crates/shipflow-workspace-engine/src/import_engine.rs over Storage. Sources has
-- the validation of a request's ids, their deduplication and the previews; Plans the new rows of a
-- bag; Creation a job from a request; Runs the loop that claims items and settles what the service
-- answers. The service is a record of functions on a state of its own, so that its answers may
-- change; a timeout is one of its answers. The writing of blobs to disk, the clock and the
-- generations of new rows are parameters too. Progress events and the raw response of a preview
-- are left out, and no other connection writes during the run of a job.
--
-- Fuel: run_job takes fuel for its loop, where 100,001 is enough for a job of at most 100,000
-- items (Runs/Ends); the search for a row id has fuel for one candidate more than there are rows.
-- All other definitions run by structural recursion.
--
-- Not modelled: the user interface, the HTTP, IPC and serialisation layers, the HTML parsers, the
-- requests to upstream services, the file and SQLite backed caches of the service, analytics,
-- blobs, the SQL text of queries, and log lines.
pub mod Prelude
pub mod Core
pub mod Backpressure
pub mod RuntimeOptions
pub mod LookupCache
pub mod Storage
pub mod Tracking
pub mod ImportEngine
