-- ===== src/Storage/Jobs/Lifecycle.antt =====
-- storage.rs: creating, cancelling, recovering and retrying import jobs.
pub mod Created
pub mod Cancelled
pub mod Recovery
pub mod Progress
pub mod Retries
use ship_flow_tauri.Prelude.{
  ℕ, ◌+◌, ◌%◌, ◌^◌, Text, bytes, Bool, true, false, Option, none, some, List, [], ◌∷◌, ◌++◌, ◌==◌,
  text_eq, nat_eq, not, ◌&&◌, ◌||◌, if◌then◌else◌, length, filter, map, ltb, text_le, max, is_some,
}
use ship_flow_tauri.Prelude.Table.{
  find_where, any, update_where, delete_where, contains, push_unique, sort_by,
}
use ship_flow_tauri.Storage.Tables.{
  Store, ImportKind, ImportMode, ImportJob, ImportJobItem, ImportAttempt, ImportJobStatus,
  ImportJobItemStatus, ImportAttemptStatus, ImportSourceItemKind, SheetRow, item_status_eq,
  source_kind_eq, is_cancelled, is_running_attempt, Result, ok, err, ◌>>=◌, ◌>>◌, guard, or_fail,
  constraint, missing_import_job, invalid_value,
}
use ship_flow_tauri.Storage.Jobs.{
  as_u32, job_has_id, item_has_id, item_of_job, has_status, get_import_job_item,
  get_import_job_summary, recompute_import_job_counts_on, count_import_items_by_status_on,
  item_precedes,
}
use ship_flow_tauri.Storage.Jobs.Attempts.{CreateImportJobItemInput, pending_item, same_source}

pub record CreateImportJobInput : Type 0 where
  pub job_id : Text
  pub sheet_id : Text
  pub kind : ImportKind
  pub mode : ImportMode
  pub total_count : ℕ

abbrev new_job : CreateImportJobInput → ℕ → ImportJob
new_job input total = record {
  job_id = input.job_id;
  sheet_id = input.sheet_id;
  kind = input.kind;
  mode = input.mode;
  status = ImportJobStatus.pending;
  total_count = total;
  success_count = 0;
  failed_count = 0;
  pending_count = total;
  completed_at = none;
  cancelled_at = none;
}

-- INSERT INTO import_jobs ... ON CONFLICT(id) DO UPDATE
upsert_job : CreateImportJobInput → ℕ → List ImportJob → List ImportJob
upsert_job input total jobs =
    if any (job_has_id input.job_id) jobs
    then update_where (job_has_id input.job_id) (λ _. new_job input total) jobs
    else jobs ++ (new_job input total ∷ [])

is_replace : ImportMode → Bool
is_replace ImportMode.replace = true
is_replace ImportMode.append = false

-- DELETE FROM import_job_items WHERE job_id = ?1, and its cascade to the attempts.
abbrev delete_job_items : Text → Store → Store
delete_job_items job_id s = record s {
  items = delete_where (item_of_job job_id) s.items;
  attempts =
      delete_where
        (λ attempt.
          any (λ item. item_of_job job_id item && item_has_id attempt.job_item_id item) s.items)
        s.attempts;
}

-- INSERT INTO import_job_items, for each item: a key that is taken fails the transaction.
insert_items : List ImportJobItem → List CreateImportJobItemInput → Result (List ImportJobItem)
insert_items items [] = ok items
insert_items items (input ∷ rest) = do
  guard (not (any (item_has_id input.item_id) items || any (same_source input) items)) constraint
  insert_items (items ++ (pending_item input ∷ [])) rest

-- The tables before the items are inserted: a replacement clears the sheet, the job is new or
-- reset, and its old items and their attempts are gone.
abbrev cleared_store : Store → CreateImportJobInput → List CreateImportJobItemInput → Store
cleared_store s input items =
    let rows =
      if is_replace input.mode
      then delete_where (λ (row : SheetRow). row.sheet_id == input.sheet_id) s.sheet_rows
      else s.sheet_rows in
    delete_job_items input.job_id
      (record s { sheet_rows = rows; jobs = upsert_job input (as_u32 (length items)) s.jobs })

unfoldable pub create_import_job_with_items :
    Store → CreateImportJobInput → List CreateImportJobItemInput → ℕ → Result (ImportJob × Store)
unfolding upsert_job is_replace insert_items
create_import_job_with_items s input items now = do
  guard (not (any (λ item. not (item.job_id == input.job_id)) items))
      (invalid_value (bytes "import_job_item_job_id") input.job_id)
  guard (contains input.sheet_id s.sheet_ids) constraint
  inserted ← insert_items (cleared_store s input items).items items
  t ←
      recompute_import_job_counts_on (record (cleared_store s input items) { items = inserted })
        input.job_id now
  job ← or_fail (get_import_job_summary t input.job_id) (missing_import_job input.job_id)
  ok (job, t)

abbrev pub cancelled_message : Option Text → Option Text
cancelled_message none = some (bytes "cancelled")
cancelled_message (some message) = some message

abbrev pub cancelled_attempt : ℕ → ImportAttempt → ImportAttempt
cancelled_attempt now attempt = record attempt {
  status = ImportAttemptStatus.cancelled;
  error_message = cancelled_message attempt.error_message;
  finished_at = some now;
}

abbrev pub cancelled_item : ImportJobItem → ImportJobItem
cancelled_item item = record item {
  status = ImportJobItemStatus.cancelled;
  error_message = cancelled_message item.error_message;
}

abbrev pub is_open_item : Text → ImportJobItem → Bool
is_open_item job_id item =
    item_of_job job_id item
    && (has_status ImportJobItemStatus.pending item || has_status ImportJobItemStatus.running item)

abbrev pub is_open_attempt : List ImportJobItem → Text → ImportAttempt → Bool
is_open_attempt items job_id attempt =
    any (λ item. item_of_job job_id item && item_has_id attempt.job_item_id item) items
    && is_running_attempt attempt.status

abbrev pub cancelled_job : List ImportJobItem → Text → ℕ → ImportJob → ImportJob
cancelled_job items job_id now job = record job {
  status = ImportJobStatus.cancelled;
  success_count = count_import_items_by_status_on items job_id ImportJobItemStatus.succeeded;
  failed_count = count_import_items_by_status_on items job_id ImportJobItemStatus.failed;
  pending_count = 0;
  cancelled_at = some now;
}

abbrev pub cancel_store : Store → Text → ℕ → Store
cancel_store s job_id now =
    let items = update_where (is_open_item job_id) cancelled_item s.items in
    record s {
      attempts = update_where (is_open_attempt s.items job_id) (cancelled_attempt now) s.attempts;
      items = items;
      jobs = update_where (job_has_id job_id) (cancelled_job items job_id now) s.jobs;
    }

unfoldable pub cancel_import_job : Store → Text → ℕ → Result Store
cancel_import_job s job_id now =
    if is_some (get_import_job_summary s job_id)
    then ok (cancel_store s job_id now)
    else err (missing_import_job job_id)

pub record JobRecoverySummary : Type 0 where
  pub recovered_job_ids : List Text
  pub recovered_item_ids : List Text
  pub interrupted_attempt_ids : List Text

abbrev pub is_unfinished : ImportAttempt → Bool
is_unfinished attempt = is_running_attempt attempt.status && not (is_some attempt.finished_at)

-- ORDER BY started_at ASC, id ASC
abbrev attempt_precedes : ImportAttempt → ImportAttempt → Bool
attempt_precedes a b =
    ltb a.started_at b.started_at
    || (a.started_at == b.started_at && text_le a.attempt_id b.attempt_id)

-- ORDER BY job_id ASC, position ASC, id ASC
abbrev item_precedes_by_job : ImportJobItem → ImportJobItem → Bool
item_precedes_by_job a b =
    if a.job_id == b.job_id then item_precedes a b else text_le a.job_id b.job_id

unfoldable pub note_attempts : JobRecoverySummary → List ImportAttempt → JobRecoverySummary
note_attempts summary [] = summary
note_attempts summary (attempt ∷ rest) =
    note_attempts
      (record summary {
        interrupted_attempt_ids = summary.interrupted_attempt_ids ++ (attempt.attempt_id ∷ []);
        recovered_item_ids = push_unique attempt.job_item_id summary.recovered_item_ids;
      })
      rest

unfoldable pub note_items : JobRecoverySummary → List ImportJobItem → JobRecoverySummary
note_items summary [] = summary
note_items summary (item ∷ rest) =
    note_items
      (record summary {
        recovered_item_ids = push_unique item.item_id summary.recovered_item_ids;
        recovered_job_ids = push_unique item.job_id summary.recovered_job_ids;
      })
      rest

abbrev pub interrupted_message : Option Text → Option Text
interrupted_message none = some (bytes "interrupted by shutdown")
interrupted_message (some message) = some message

abbrev pub interrupted_attempt : ℕ → ImportAttempt → ImportAttempt
interrupted_attempt now attempt = record attempt {
  status = ImportAttemptStatus.interrupted;
  error_message = interrupted_message attempt.error_message;
  finished_at = some now;
}

abbrev pub requeued : ImportJobItem → ImportJobItem
requeued item = record item { status = ImportJobItemStatus.pending; error_message = none }

unfoldable pub recompute_all : Store → List Text → ℕ → Result Store
recompute_all s [] now = ok s
recompute_all s (job_id ∷ rest) now = do
  t ← recompute_import_job_counts_on s job_id now
  recompute_all t rest now

-- The rows after the updates, before the recounts.
abbrev pub requeued_store : Store → ℕ → Store
requeued_store s now = record s {
  attempts = update_where is_unfinished (interrupted_attempt now) s.attempts;
  items = update_where (has_status ImportJobItemStatus.running) requeued s.items;
}

unfoldable pub recovery_summary : Store → JobRecoverySummary
unfolding note_attempts note_items
recovery_summary s =
    note_items
      (note_attempts
        (record { recovered_job_ids = []; recovered_item_ids = []; interrupted_attempt_ids = [] })
        (sort_by attempt_precedes (filter is_unfinished s.attempts)))
      (sort_by item_precedes_by_job (filter (has_status ImportJobItemStatus.running) s.items))

-- An error stands for the statement's own, with the updates before it kept.
unfoldable pub recover_interrupted_import_jobs : Store → ℕ → Result (JobRecoverySummary × Store)
unfolding recovery_summary recompute_all
recover_interrupted_import_jobs s now = do
  t ← recompute_all (requeued_store s now) (recovery_summary s).recovered_job_ids now
  ok (recovery_summary s, t)

pub record ImportRetryTargets : Type 0 where
  pub source_item_ids : List Text
  pub manifest_bag_ids : List Text

abbrev is_retryable : Text → ℕ → ImportJobItem → Bool
is_retryable job_id max_attempts item =
    item_of_job job_id item
    && (has_status ImportJobItemStatus.failed item && ltb item.attempt_count max_attempts)

unfoldable pub add_target :
    ImportRetryTargets → ImportJobItem → ImportSourceItemKind → ImportRetryTargets
add_target targets item ImportSourceItemKind.manifest_bag = record targets {
  manifest_bag_ids = targets.manifest_bag_ids ++ (item.source_item_id ∷ []);
}
add_target targets item _ = record targets {
  source_item_ids = targets.source_item_ids ++ (item.source_item_id ∷ []);
}

unfoldable pub retry_targets : ImportRetryTargets → List ImportJobItem → ImportRetryTargets
retry_targets targets [] = targets
retry_targets targets (item ∷ rest) =
    retry_targets (add_target targets item item.source_item_kind) rest

abbrev reset_item : ImportJobItem → ImportJobItem
reset_item item = record item {
  status = ImportJobItemStatus.pending;
  tracking_ids = [];
  sheet_row_ids = [];
  error_message = none;
}

-- UPDATE ... WHERE id = ?1, for each item of the list.
unfoldable pub reset_items : List ImportJobItem → List ImportJobItem → List ImportJobItem
reset_items items [] = items
reset_items items (item ∷ rest) =
    reset_items (update_where (item_has_id item.item_id) reset_item items) rest

unfoldable pub retry_import_job_failed : Store → Text → ℕ → ℕ → Result (ImportRetryTargets × Store)
unfolding retry_targets add_target reset_items
retry_import_job_failed s job_id max_attempts now = do
  guard (is_some (get_import_job_summary s job_id)) (missing_import_job job_id)
  let failed = sort_by item_precedes (filter (is_retryable job_id max_attempts) s.items)
  t ← recompute_import_job_counts_on (record s { items = reset_items s.items failed }) job_id now
  ok (retry_targets (record { source_item_ids = []; manifest_bag_ids = [] }) failed, t)

-- COALESCE(MAX(position), -1) + 1
unfoldable pub next_import_job_item_position : List ImportJobItem → Text → ℕ
next_import_job_item_position [] job_id = 0
next_import_job_item_position (item ∷ rest) job_id =
    let next = next_import_job_item_position rest job_id in
    if item_of_job job_id item then max (item.position + 1) next else next
