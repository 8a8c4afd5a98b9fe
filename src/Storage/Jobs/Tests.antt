-- ===== src/Storage/Jobs/Tests.antt =====
-- storage.rs: runs of the import jobs on a small store, and the theorems at inputs that meet their
-- hypotheses.
use ship_flow_tauri.Prelude.{
  ℕ, ◌≤◌, Text, bytes, text_beq, true, false, none, some, [], ◌∷◌, ◌≡◌, refl, arith, sum_by, filter,
  All, not, ◌&&◌, is_some, text_eq, map,
}
use ship_flow_tauri.Prelude.Table.{
  delete_where, contains, find_where, any, update_where, sort_by, insert_by, push_unique,
}
use ship_flow_tauri.Storage.Tables.{
  blob_exists, ImportKind, ImportMode, ImportJob, ImportSourceItemKind, ImportJobStatus, Store,
  ImportJobItem, ImportAttempt, ImportJobItemStatus, ImportAttemptStatus, item_status_eq, ok,
  is_running_attempt,
}
use ship_flow_tauri.Storage.Jobs.{
  recounted, job_status_of, count_import_items_by_status_on, get_import_job_summary,
  recompute_import_job_counts_on, item_has_id, has_status, get_import_job_item, get_import_attempt,
  item_precedes, earlier, first_item, has_active_job, is_claimable, claimed, claim_item,
  claim_next_pending_import_job_item,
}
use ship_flow_tauri.Storage.Jobs.Counts.{IsConsistent, recount_of}
use ship_flow_tauri.Storage.Jobs.Counts.Claims.{with_claim}
use ship_flow_tauri.Storage.Jobs.Counts.Order.{claim_first}
use ship_flow_tauri.Storage.Jobs.Attempts.{
  CreateImportJobItemInput, pending_item, FinishImportAttemptInput, finish_import_attempt,
  with_result, finish_running_import_attempt_on, settle_attempt, running_import_attempt_context,
}
use ship_flow_tauri.Storage.Jobs.Once.{deliver, alone, with_rows, finish_once}
use ship_flow_tauri.Storage.Jobs.Lifecycle.{
  cancelled_job, CreateImportJobInput, create_import_job_with_items, cancel_import_job,
  cancel_store, ImportRetryTargets, retry_import_job_failed, requeued_store, JobRecoverySummary,
  recover_interrupted_import_jobs, recovery_summary, recompute_all, note_attempts, note_items,
  reset_items, retry_targets, add_target,
}
use ship_flow_tauri.Storage.Jobs.Lifecycle.Cancelled.{cancel_import_job-IsConsistent}
use ship_flow_tauri.Storage.Jobs.Lifecycle.Created.{create-IsConsistent}
use ship_flow_tauri.Storage.Jobs.Lifecycle.Progress.{recover_total}
use ship_flow_tauri.Storage.Jobs.Lifecycle.Recovery.{recover_clears}
use ship_flow_tauri.Storage.Jobs.Lifecycle.Retries.{
  retry-eq, retry_cancelled, retried_store, retried_item,
}
use ship_flow_tauri.Storage.Jobs.Steps.{JobReach, JobStep, JobReach-IsConsistent, JobReach-inactive}

abbrev item_at : Text → ℕ → ImportJobItemStatus → ImportJobItem
item_at id position status = record {
  item_id = id;
  job_id = bytes "j";
  source_item_id = id;
  source_item_kind = ImportSourceItemKind.bag;
  position = position;
  status = status;
  tracking_ids = [];
  sheet_row_ids = [];
  error_message = none;
  attempt_count = 1;
}

abbrev first : ImportJobItem
first = item_at (bytes "i1") 0 ImportJobItemStatus.pending

abbrev second : ImportJobItem
second = item_at (bytes "i2") 1 ImportJobItemStatus.running

abbrev third : ImportJobItem
third = item_at (bytes "i3") 2 ImportJobItemStatus.failed

abbrev attempt : ImportAttempt
attempt = record {
  attempt_id = bytes "a2";
  job_item_id = bytes "i2";
  attempt_number = 1;
  status = ImportAttemptStatus.running;
  error_message = none;
  raw_blob_id = none;
  started_at = 5;
  finished_at = none;
}

abbrev running_job : ImportJob
running_job = record {
  job_id = bytes "j";
  sheet_id = bytes "s";
  kind = ImportKind.bag;
  mode = ImportMode.append;
  status = ImportJobStatus.running;
  total_count = 3;
  success_count = 0;
  failed_count = 1;
  pending_count = 2;
  completed_at = none;
  cancelled_at = none;
}

-- A job with a pending, a running and a failed item.
abbrev sample : Store
sample = record {
  sheet_ids = bytes "s" ∷ [];
  blob_ids = [];
  sheet_rows = [];
  records = [];
  jobs = running_job ∷ [];
  items = first ∷ second ∷ third ∷ [];
  attempts = attempt ∷ [];
}

sample-IsConsistent : IsConsistent sample
unfolding find_where count_import_items_by_status_on sum_by text_beq job_status_of
sample-IsConsistent = record {
  unique = (refl, (refl, (refl, tt)));
  counted =
      (record { success = refl; failed = refl; pending = refl; total = refl; derived = refl }, tt);
}

abbrev claimed_sample : Store
claimed_sample = recount_of (with_claim sample first) (bytes "j") 10

claim_sample :
    claim_next_pending_import_job_item sample (bytes "j") 10
    ≡ ok (some (claimed first), claimed_sample)
unfolding claim_next_pending_import_job_item claim_item first_item earlier filter has_active_job any
    item_precedes sum_by update_where find_where text_beq get_import_job_item
    recompute_import_job_counts_on
claim_sample = refl

claim_first_example :
    (item : ImportJobItem) × (t : Store) × (claim_next_pending_import_job_item sample (bytes "j") 10
      ≡ ok (some (claimed item), t))
    × (find_where (item_has_id item.item_id) sample.items ≡ some item)
    × (is_claimable sample (bytes "j") item ≡ true)
    × All
        (λ (y : ImportJobItem).
          is_claimable sample (bytes "j") y ≡ true → item.position ≤ y.position)
        sample.items
unfolding sum_by has_active_job any text_beq
claim_first_example = claim_first sample (bytes "j") 10 sample-IsConsistent (omega arith)

-- The result of the running attempt.
abbrev success : FinishImportAttemptInput
success = record {
  attempt_id = bytes "a2";
  status = ImportAttemptStatus.succeeded;
  tracking_ids = bytes "P1" ∷ [];
  error_message = none;
  raw_blob_id = none;
}

abbrev finished_sample : Store
finished_sample = recount_of (with_result sample success 20 (bytes "i2")) (bytes "j") 20

finish_sample : finish_import_attempt sample success 20 ≡ ok (true, finished_sample)
unfolding finish_import_attempt finish_running_import_attempt_on settle_attempt
    running_import_attempt_context blob_exists get_import_attempt get_import_job_item
    get_import_job_summary find_where text_beq sum_by recompute_import_job_counts_on any
finish_sample = refl

abbrev cancelled_sample : Store
cancelled_sample = cancel_store sample (bytes "j") 15

cancel_sample : cancel_import_job sample (bytes "j") 15 ≡ ok cancelled_sample
unfolding cancel_import_job get_import_job_summary find_where text_beq
cancel_sample = refl

-- A claim, the result of the running attempt, and a cancellation.
abbrev cancelled_later : Store
cancelled_later = cancel_store finished_sample (bytes "j") 25

sample-JobReach : JobReach sample cancelled_later
unfolding cancel_import_job get_import_job_summary find_where text_beq update_where recounted
sample-JobReach =
    JobReach.then (JobReach.then JobReach.here (JobStep.finish success 20 true finish_sample))
      (JobStep.cancel (bytes "j") 25 refl)

-- A bag's result for the attempt of the sample, with the other item cancelled in between.
finish_once_example :
    deliver cancelled_later (with_rows (bytes "i2") [] []) success 30 ≡ ok (false, cancelled_later)
unfolding cancel_import_job get_import_job_summary find_where text_beq update_where recounted
finish_once_example =
    finish_once sample alone (with_rows (bytes "i2") [] []) success success 20 30 finished_sample
      cancelled_later refl refl finish_sample
      (JobReach.then JobReach.here (JobStep.cancel (bytes "j") 25 refl))

JobReach-IsConsistent_example : IsConsistent cancelled_later
JobReach-IsConsistent_example =
    JobReach-IsConsistent sample cancelled_later sample-JobReach sample-IsConsistent

-- A retry of the cancelled job: its failed item becomes pending.
abbrev retried_sample : Store
retried_sample = recount_of (retried_store cancelled_sample (bytes "j") 3) (bytes "j") 30

abbrev retried_targets : ImportRetryTargets
retried_targets = record { source_item_ids = bytes "i3" ∷ []; manifest_bag_ids = [] }

retry_sample :
    retry_import_job_failed cancelled_sample (bytes "j") 3 30 ≡ ok (retried_targets, retried_sample)
unfolding retry_import_job_failed reset_items retry_targets add_target get_import_job_summary
    find_where text_beq update_where filter sort_by insert_by item_precedes
    recompute_import_job_counts_on any count_import_items_by_status_on sum_by
retry_sample = refl

cancelled_sample-IsConsistent : IsConsistent cancelled_sample
cancelled_sample-IsConsistent =
    cancel_import_job-IsConsistent sample (bytes "j") 15 cancelled_sample cancel_sample
      sample-IsConsistent

retry-eq_example :
    recompute_import_job_counts_on (retried_store cancelled_sample (bytes "j") 3) (bytes "j") 30
    ≡ ok retried_sample
retry-eq_example =
    retry-eq cancelled_sample (bytes "j") 3 30 retried_targets retried_sample retry_sample
      cancelled_sample-IsConsistent

retry_cancelled_example :
    (targets : ImportRetryTargets) × (t : Store) × (retry_import_job_failed cancelled_sample
        (bytes "j")
        3
        30
      ≡ ok (targets, t))
    × (t.items ≡ map (retried_item (bytes "j") 3) cancelled_sample.items)
    × (claim_next_pending_import_job_item t (bytes "j") 40 ≡ ok (none, t))
unfolding has_active_job any text_beq update_where get_import_job_summary find_where
retry_cancelled_example =
    retry_cancelled cancelled_sample (bytes "j") 3 30 40
      (cancelled_job cancelled_sample.items (bytes "j") 15 running_job)
      cancelled_sample-IsConsistent refl refl

JobReach-inactive_example : has_active_job retried_sample.jobs (bytes "j") ≡ false
unfolding has_active_job any text_beq update_where
JobReach-inactive_example =
    JobReach-inactive cancelled_sample retried_sample (bytes "j")
      (JobReach.then JobReach.here (JobStep.retry (bytes "j") 3 30 retried_targets retry_sample))
      refl

abbrev recovered_sample : Store
recovered_sample = recount_of (requeued_store sample 50) (bytes "j") 50

abbrev recovered_summary : JobRecoverySummary
recovered_summary = record {
  recovered_job_ids = bytes "j" ∷ [];
  recovered_item_ids = bytes "i2" ∷ [];
  interrupted_attempt_ids = bytes "a2" ∷ [];
}

recover_sample :
    recover_interrupted_import_jobs sample 50 ≡ ok (recovered_summary, recovered_sample)
unfolding recover_interrupted_import_jobs recovery_summary note_attempts note_items recompute_all
    recompute_import_job_counts_on any update_where filter sort_by insert_by text_beq push_unique
    contains count_import_items_by_status_on sum_by
recover_sample = refl

recover_clears_example :
    All
      (λ (x : ImportJobItem). has_status ImportJobItemStatus.running x ≡ false)
      recovered_sample.items
    × All
        (λ (a : ImportAttempt).
          (is_running_attempt a.status && not (is_some a.finished_at)) ≡ false)
        recovered_sample.attempts
recover_clears_example = recover_clears sample 50 recovered_summary recovered_sample recover_sample

-- A new job with one item in an empty store.
abbrev empty_store : Store
empty_store = record {
  sheet_ids = bytes "s" ∷ [];
  blob_ids = [];
  sheet_rows = [];
  records = [];
  jobs = [];
  items = [];
  attempts = [];
}

abbrev job_input : CreateImportJobInput
job_input = record {
  job_id = bytes "j";
  sheet_id = bytes "s";
  kind = ImportKind.bag;
  mode = ImportMode.append;
  total_count = 1;
}

abbrev item_input : CreateImportJobItemInput
item_input = record {
  item_id = bytes "i1";
  job_id = bytes "j";
  source_item_id = bytes "B1";
  source_item_kind = ImportSourceItemKind.bag;
  position = 0;
}

abbrev created_job : ImportJob
created_job = record {
  job_id = bytes "j";
  sheet_id = bytes "s";
  kind = ImportKind.bag;
  mode = ImportMode.append;
  status = ImportJobStatus.running;
  total_count = 1;
  success_count = 0;
  failed_count = 0;
  pending_count = 1;
  completed_at = none;
  cancelled_at = none;
}

abbrev created_store : Store
created_store = record empty_store { jobs = created_job ∷ []; items = pending_item item_input ∷ [] }

create_runs :
    create_import_job_with_items empty_store job_input (item_input ∷ []) 3
    ≡ ok (created_job, created_store)
unfolding create_import_job_with_items any contains text_beq recompute_import_job_counts_on
    update_where recounted count_import_items_by_status_on sum_by job_status_of
    get_import_job_summary find_where delete_where
create_runs = refl

create-IsConsistent_example : IsConsistent created_store
create-IsConsistent_example =
    create-IsConsistent empty_store job_input (item_input ∷ []) 3 created_job created_store
      create_runs (record { unique = tt; counted = tt })

recover_total_example :
    (summary : JobRecoverySummary) × (t : Store) × (recover_interrupted_import_jobs sample 50
      ≡ ok (summary, t))
unfolding any text_beq
recover_total_example = recover_total sample 50 (refl, (refl, (refl, tt)))
