-- ===== src/Storage/Jobs/Attempts.antt =====
-- storage.rs: starting and finishing an attempt on an import item.
pub mod Outcomes
pub mod Counted
pub mod Kept
pub mod Late
pub mod Inserts
pub mod Results
pub mod Commits
use ship_flow_tauri.Prelude.{
  ℕ, ◌+◌, Text, bytes, Bool, true, false, Option, none, some, List, [], ◌∷◌, ◌++◌, ◌==◌, text_eq,
  nat_eq, not, ◌&&◌, ◌||◌, if◌then◌else◌, count, is_some, max,
}
use ship_flow_tauri.Prelude.Table.{find_where, any, update_where, contains}
use ship_flow_tauri.Storage.Tables.{
  blob_exists, Store, ImportJob, ImportJobItem, ImportAttempt, ImportJobStatus, ImportJobItemStatus,
  ImportAttemptStatus, ImportSourceItemKind, item_status_eq, source_kind_eq, is_cancelled,
  is_running_attempt, item_status_for_attempt_status, Result, ok, err, ◌>>=◌, ◌>>◌, guard, or_fail,
  constraint, missing_import_job, invalid_value,
}
use ship_flow_tauri.Storage.Rows.{UpsertSheetRowInput, upsert_all}
use ship_flow_tauri.Storage.Jobs.{
  as_u32, item_has_id, attempt_has_id, has_status, get_import_job_item, get_import_job_summary,
  get_import_attempt, recompute_import_job_counts_on,
}

pub record StartImportAttemptInput : Type 0 where
  pub attempt_id : Text
  pub item_id : Text
  pub raw_blob_id : Option Text

pub record FinishImportAttemptInput : Type 0 where
  pub attempt_id : Text
  pub status : ImportAttemptStatus
  pub tracking_ids : List Text
  pub error_message : Option Text
  pub raw_blob_id : Option Text

pub record CreateImportJobItemInput : Type 0 where
  pub item_id : Text
  pub job_id : Text
  pub source_item_id : Text
  pub source_item_kind : ImportSourceItemKind
  pub position : ℕ

-- COALESCE(MAX(attempt_number), 0)
pub last_attempt_number : Text → List ImportAttempt → ℕ
last_attempt_number item_id [] = 0
last_attempt_number item_id (a ∷ as') =
    let rest = last_attempt_number item_id as' in
    if a.job_item_id == item_id then max a.attempt_number rest else rest

-- A foreign key that may be NULL.
abbrev pub started : ImportJobItem → ImportJobItem
started item = record item { error_message = none; attempt_count = item.attempt_count + 1 }

abbrev pub new_attempt : Store → StartImportAttemptInput → ℕ → ImportAttempt
new_attempt s input now = record {
  attempt_id = input.attempt_id;
  job_item_id = input.item_id;
  attempt_number = as_u32 (last_attempt_number input.item_id s.attempts + 1);
  status = ImportAttemptStatus.running;
  error_message = none;
  raw_blob_id = input.raw_blob_id;
  started_at = now;
  finished_at = none;
}

-- WHERE id = ?1 AND status = 'running'
abbrev pub is_running_item : Text → ImportJobItem → Bool
is_running_item item_id row = item_has_id item_id row && has_status ImportJobItemStatus.running row

abbrev may_start : ImportJobItem → ImportJob → Bool
may_start item job =
    not (not (has_status ImportJobItemStatus.running item) || is_cancelled job.status)

-- The keys that the INSERT checks.
abbrev may_insert : Store → StartImportAttemptInput → Bool
may_insert s input =
    not (is_some (get_import_attempt s input.attempt_id)) && blob_exists s input.raw_blob_id

abbrev pub with_attempt : Store → StartImportAttemptInput → ℕ → Store
with_attempt s input now = record s {
  attempts = s.attempts ++ (new_attempt s input now ∷ []);
  items = update_where (is_running_item input.item_id) started s.items;
}

unfoldable pub start_import_attempt :
    Store → StartImportAttemptInput → ℕ → Result (ImportAttempt × Store)
unfolding last_attempt_number blob_exists
start_import_attempt s input now = do
  let bad_state = invalid_value (bytes "import_attempt_state") input.item_id
  item ←
      or_fail (get_import_job_item s input.item_id)
        (invalid_value (bytes "import_job_item") input.item_id)
  job ←
      or_fail (get_import_job_summary s item.job_id)
        (invalid_value (bytes "import_job_item") input.item_id)
  guard (may_start item job) bad_state
  guard (may_insert s input) constraint
  guard (not (count (is_running_item input.item_id) s.items == 0)) bad_state
  t ← recompute_import_job_counts_on (with_attempt s input now) item.job_id now
  stored ←
      or_fail (get_import_attempt t input.attempt_id)
        (invalid_value (bytes "import_attempt") input.attempt_id)
  ok (stored, t)

-- The item and the job of an attempt that may still be finished; `none` where it, its item or its
-- job is no longer active.
unfoldable pub running_import_attempt_context : Store → Text → Result (Option (Text × Text))
running_import_attempt_context s attempt_id = do
  let missing = invalid_value (bytes "import_attempt") attempt_id
  attempt ← or_fail (get_import_attempt s attempt_id) missing
  item ← or_fail (get_import_job_item s attempt.job_item_id) missing
  job ← or_fail (get_import_job_summary s item.job_id) missing
  ok (
      if not (is_running_attempt attempt.status)
        || (not (has_status ImportJobItemStatus.running item) || is_cancelled job.status)
      then none
      else some (attempt.job_item_id, item.job_id))

-- COALESCE(?4, raw_blob_id)
abbrev pub coalesce : Option Text → Option Text → Option Text
coalesce none old = old
coalesce (some new) old = some new

abbrev pub finished : FinishImportAttemptInput → ℕ → ImportAttempt → ImportAttempt
finished input now attempt = record attempt {
  status = input.status;
  error_message = input.error_message;
  raw_blob_id = coalesce input.raw_blob_id attempt.raw_blob_id;
  finished_at = if is_running_attempt input.status then none else some now;
}

abbrev pub settled : FinishImportAttemptInput → ImportJobItem → ImportJobItem
settled input item = record item {
  status = item_status_for_attempt_status input.status;
  tracking_ids = input.tracking_ids;
  error_message = input.error_message;
}

-- WHERE id = ?1 AND status = 'running'
abbrev pub is_running_attempt_of : Text → ImportAttempt → Bool
is_running_attempt_of attempt_id row =
    attempt_has_id attempt_id row && is_running_attempt row.status

abbrev pub with_result : Store → FinishImportAttemptInput → ℕ → Text → Store
with_result s input now item_id = record s {
  attempts = update_where (is_running_attempt_of input.attempt_id) (finished input now) s.attempts;
  items = update_where (is_running_item item_id) (settled input) s.items;
}

unfoldable pub settle_attempt :
    Store → FinishImportAttemptInput → ℕ → Option (Text × Text) → Result (Option Store)
settle_attempt s input now none = ok none
settle_attempt s input now (some (item_id, job_id)) = do
  guard (blob_exists s input.raw_blob_id) constraint
  if count (is_running_attempt_of input.attempt_id) s.attempts == 0
      then ok none
      else if count (is_running_item item_id) s.items == 0
      then ok none
      else do
        t ← recompute_import_job_counts_on (with_result s input now item_id) job_id now
        ok (some t)

-- `none` is `Ok(false)`: nothing was finished, and the caller drops its transaction.
unfoldable pub finish_running_import_attempt_on :
    Store → FinishImportAttemptInput → ℕ → Result (Option Store)
unfolding settle_attempt blob_exists
finish_running_import_attempt_on s input now = do
  context ← running_import_attempt_context s input.attempt_id
  settle_attempt s input now context

-- Commit, or keep the old store.
abbrev pub commit : Store → Option Store → Bool × Store
commit s none = (false, s)
commit s (some t) = (true, t)

unfoldable pub finish_import_attempt : Store → FinishImportAttemptInput → ℕ → Result (Bool × Store)
finish_import_attempt s input now = do
  finished_store ← finish_running_import_attempt_on s input now
  ok (commit s finished_store)

abbrev pub pending_item : CreateImportJobItemInput → ImportJobItem
pending_item input = record {
  item_id = input.item_id;
  job_id = input.job_id;
  source_item_id = input.source_item_id;
  source_item_kind = input.source_item_kind;
  position = input.position;
  status = ImportJobItemStatus.pending;
  tracking_ids = [];
  sheet_row_ids = [];
  error_message = none;
  attempt_count = 0;
}

abbrev pub same_source : CreateImportJobItemInput → ImportJobItem → Bool
same_source input row =
    row.job_id == input.job_id
    && (row.source_item_id == input.source_item_id
        && row.source_item_kind == input.source_item_kind)

-- INSERT ... ON CONFLICT(job_id, source_item_id, source_item_kind) DO NOTHING, for each item: a known
-- source is passed over whatever its id, and for a new one an id that is taken is an error.
unfoldable pub insert_new_items :
    List ImportJobItem → List CreateImportJobItemInput → Result (List ImportJobItem)
insert_new_items items [] = ok items
insert_new_items items (input ∷ rest) = do
  guard (any (same_source input) items || not (any (item_has_id input.item_id) items)) constraint
  insert_new_items
      (if any (same_source input) items then items else items ++ (pending_item input ∷ [])) rest

unfoldable pub finish_with_items :
    Store
    → FinishImportAttemptInput
    → List CreateImportJobItemInput
    → ℕ
    → Option (Text × Text)
    → Result (Bool × Store)
finish_with_items s input items now none = ok (false, s)
finish_with_items s input items now (some (item_id, job_id)) = do
  guard (not (any (λ item. not (item.job_id == job_id)) items))
      (invalid_value (bytes "import_job_item_job_id") job_id)
  inserted ← insert_new_items s.items items
  finished_store ← finish_running_import_attempt_on (record s { items = inserted }) input now
  ok (commit s finished_store)

unfoldable pub finish_manifest_import_attempt_with_items :
    Store → FinishImportAttemptInput → List CreateImportJobItemInput → ℕ → Result (Bool × Store)
unfolding finish_with_items
finish_manifest_import_attempt_with_items s input items now = do
  context ← running_import_attempt_context s input.attempt_id
  finish_with_items s input items now context

abbrev pub with_ids : List Text → ImportJobItem → ImportJobItem
with_ids sheet_row_ids row = record row { sheet_row_ids = sheet_row_ids }

-- UPDATE import_job_items SET sheet_row_ids_json = ?2 WHERE id = ?1 AND status = 'running'
abbrev pub with_row_ids : Store → Text → List Text → Store
with_row_ids s item_id sheet_row_ids = record s {
  items = update_where (is_running_item item_id) (with_ids sheet_row_ids) s.items;
}

unfoldable pub finish_with_rows :
    Store
    → FinishImportAttemptInput
    → Text
    → List (UpsertSheetRowInput × Text)
    → List Text
    → ℕ
    → Option (Text × Text)
    → Result (Bool × Store)
finish_with_rows s input item_id rows sheet_row_ids now none = ok (false, s)
finish_with_rows s input item_id rows sheet_row_ids now (some (running_item_id, job_id)) = do
  guard (running_item_id == item_id) (invalid_value (bytes "import_job_item") item_id)
  with_rows ← upsert_all s rows false
  finished_store ←
      finish_running_import_attempt_on (with_row_ids with_rows item_id sheet_row_ids) input now
  ok (commit s finished_store)

unfoldable pub finish_bag_import_attempt_with_sheet_rows :
    Store
    → FinishImportAttemptInput
    → Text
    → List (UpsertSheetRowInput × Text)
    → List Text
    → ℕ
    → Result (Bool × Store)
unfolding finish_with_rows
finish_bag_import_attempt_with_sheet_rows s input item_id rows sheet_row_ids now = do
  context ← running_import_attempt_context s input.attempt_id
  finish_with_rows s input item_id rows sheet_row_ids now context
