-- ===== src/Storage/Jobs.antt =====
-- storage.rs: import jobs, their items and the attempts on each item. The counts of a job are
-- recomputed after each change of its items.
pub mod Counts
pub mod Attempts
pub mod Lifecycle
pub mod Steps
pub mod Once
mod Tests
use ship_flow_tauri.Prelude.{
  ℕ, ◌+◌, ◌%◌, ◌^◌, Text, bytes, Bool, true, false, Option, none, some, List, [], ◌∷◌, ◌++◌, ◌==◌,
  text_eq, nat_eq, not, ◌&&◌, ◌||◌, ltb, leb, text_le, if◌then◌else◌, count, length, filter,
  is_some, map, max,
}
use ship_flow_tauri.Prelude.Table.{find_where, any, update_where, contains}
use ship_flow_tauri.Storage.Tables.{
  Store, ImportJob, ImportJobItem, ImportAttempt, ImportJobStatus, ImportJobItemStatus,
  ImportAttemptStatus, item_status_eq, is_cancelled, is_running_attempt,
  item_status_for_attempt_status, Result, ok, err, ◌>>=◌, ◌>>◌, guard, or_fail, constraint,
  missing_import_job, invalid_value,
}

-- `as u32`
abbrev pub as_u32 : ℕ → ℕ
as_u32 n = n % 2 ^ 32

abbrev pub job_has_id : Text → ImportJob → Bool
job_has_id id job = job.job_id == id

abbrev pub item_has_id : Text → ImportJobItem → Bool
item_has_id id item = item.item_id == id

abbrev pub attempt_has_id : Text → ImportAttempt → Bool
attempt_has_id id attempt = attempt.attempt_id == id

abbrev pub item_of_job : Text → ImportJobItem → Bool
item_of_job job_id item = item.job_id == job_id

abbrev pub has_status : ImportJobItemStatus → ImportJobItem → Bool
has_status status item = item.status == status

unfoldable pub count_import_items_by_status_on : List ImportJobItem → Text → ImportJobItemStatus → ℕ
count_import_items_by_status_on items job_id status =
    as_u32 (count (λ item. item_of_job job_id item && has_status status item) items)

unfoldable pub job_status_of : ImportJobStatus → ℕ → ℕ → ℕ → ℕ → ImportJobStatus
job_status_of current pending_count failed_count total_count success_count =
    if is_cancelled current
    then ImportJobStatus.cancelled
    else if ltb 0 pending_count
    then ImportJobStatus.running
    else if ltb 0 failed_count
    then ImportJobStatus.failed
    else if total_count == success_count
    then ImportJobStatus.completed
    else ImportJobStatus.pending

abbrev pub completion_of : ImportJobStatus → Option ℕ → ℕ → Option ℕ
completion_of ImportJobStatus.cancelled completed_at now = completed_at
completion_of ImportJobStatus.completed completed_at now = some now
completion_of _ completed_at now = none

-- A job with the counts of its items in the table.
unfoldable pub recounted : List ImportJobItem → Text → ℕ → ImportJob → ImportJob
recounted items job_id now job =
    let success_count =
      count_import_items_by_status_on items job_id ImportJobItemStatus.succeeded in
    let failed_count = count_import_items_by_status_on items job_id ImportJobItemStatus.failed in
    let pending_count = as_u32 (
      count_import_items_by_status_on items job_id ImportJobItemStatus.pending
      + count_import_items_by_status_on items job_id ImportJobItemStatus.running) in
    let total_count = count (item_of_job job_id) items in
    let status = job_status_of job.status pending_count failed_count total_count success_count in
    record job {
      status = status;
      total_count = total_count;
      success_count = success_count;
      failed_count = failed_count;
      pending_count = pending_count;
      completed_at = completion_of status job.completed_at now;
    }

unfoldable pub recompute_import_job_counts_on : Store → Text → ℕ → Result Store
recompute_import_job_counts_on s job_id now =
    if any (job_has_id job_id) s.jobs
    then ok
        (record s { jobs = update_where (job_has_id job_id) (recounted s.items job_id now) s.jobs })
    else err (missing_import_job job_id)

unfoldable pub get_import_job_summary : Store → Text → Option ImportJob
get_import_job_summary s job_id = find_where (job_has_id job_id) s.jobs

unfoldable pub get_import_job_item : Store → Text → Option ImportJobItem
get_import_job_item s item_id = find_where (item_has_id item_id) s.items

unfoldable pub get_import_attempt : Store → Text → Option ImportAttempt
get_import_attempt s attempt_id = find_where (attempt_has_id attempt_id) s.attempts

-- ORDER BY position ASC, id ASC
unfoldable pub item_precedes : ImportJobItem → ImportJobItem → Bool
item_precedes a b =
    ltb a.position b.position || (a.position == b.position && text_le a.item_id b.item_id)

earlier : ImportJobItem → Option ImportJobItem → Option ImportJobItem
earlier x none = some x
earlier x (some y) = if item_precedes x y then some x else some y

-- ORDER BY position ASC, id ASC LIMIT 1
unfoldable pub first_item : List ImportJobItem → Option ImportJobItem
unfolding earlier
first_item [] = none
first_item (x ∷ xs) = earlier x (first_item xs)

-- EXISTS (SELECT 1 FROM import_jobs WHERE id = ?1 AND status <> 'cancelled')
unfoldable pub has_active_job : List ImportJob → Text → Bool
has_active_job jobs job_id =
    any (λ job. job_has_id job_id job && not (is_cancelled job.status)) jobs

abbrev pub is_claimable : Store → Text → ImportJobItem → Bool
is_claimable s job_id item =
    item_of_job job_id item
    && (has_status ImportJobItemStatus.pending item && has_active_job s.jobs item.job_id)

abbrev pub claimed : ImportJobItem → ImportJobItem
claimed item = record item { status = ImportJobItemStatus.running; error_message = none }

unfoldable pub claim_item :
    Store → Text → ℕ → Option ImportJobItem → Result (Option ImportJobItem × Store)
claim_item s job_id now none = ok (none, s)
claim_item s job_id now (some item) =
    let matches : ImportJobItem → Bool = λ row.
      item_has_id item.item_id row
      && (has_status ImportJobItemStatus.pending row && has_active_job s.jobs row.job_id) in
    if count matches s.items == 0 then ok (none, s) else do
      t ←
          recompute_import_job_counts_on (record s { items = update_where matches claimed s.items })
            job_id now
      ok (get_import_job_item t item.item_id, t)

unfoldable pub claim_next_pending_import_job_item :
    Store → Text → ℕ → Result (Option ImportJobItem × Store)
unfolding claim_item
claim_next_pending_import_job_item s job_id now =
    claim_item s job_id now (first_item (filter (is_claimable s job_id) s.items))
