-- ===== src/Storage/Jobs/Attempts/Late.antt =====
-- storage.rs: results that come too late, after a first result or after the job's cancellation.
use ship_flow_tauri.Prelude.{
  ℕ, Text, true, false, none, some, ◌≡◌, refl, ◌∙◌, text_eq, nat_eq, ◌&&◌, not, arith,
  if◌then◌else◌,
}
use ship_flow_tauri.Prelude.Table.{find_where-update_where, find_where-holds}
use ship_flow_tauri.Storage.Tables.{
  Store, ImportJob, ImportJobItem, ImportAttempt, ok, or_fail->>=-eq-ok, is_cancelled,
  is_running_attempt,
}
use ship_flow_tauri.Storage.Jobs.{
  attempt_has_id, item_has_id, job_has_id, get_import_job_item, get_import_attempt,
  get_import_job_summary, recompute_import_job_counts_on, recounted,
}
use ship_flow_tauri.Storage.Jobs.Attempts.{
  FinishImportAttemptInput, running_import_attempt_context, finish_running_import_attempt_on,
  finish_import_attempt, settle_attempt, is_running_attempt_of, is_running_item, with_result,
  finished, settled,
}
use ship_flow_tauri.Storage.Jobs.Counts.{recount_of, recompute-eq}

-- An attempt is closed when it stands in the table with its item and job, and it has ended.
pub record IsEnded (s : Store) (attempt_id : Text) : Type 0 where
  pub attempt : ImportAttempt
  pub item : ImportJobItem
  pub job : ImportJob
  pub has_attempt : get_import_attempt s attempt_id ≡ some attempt
  pub has_item : get_import_job_item s attempt.job_item_id ≡ some item
  pub has_job : get_import_job_summary s item.job_id ≡ some job
  pub ended : (is_running_attempt attempt.status && not (is_cancelled job.status)) ≡ false

pub context-IsEnded :
    (s : Store) (attempt_id : Text)
    → IsEnded s attempt_id
    → running_import_attempt_context s attempt_id ≡ ok none
unfolding running_import_attempt_context
context-IsEnded s attempt_id e = ground (arith, e.has_attempt, e.has_item, e.has_job, e.ended)

-- A result for an attempt that has ended changes nothing.
pub finish-IsEnded :
    (s : Store) (input : FinishImportAttemptInput) (now : ℕ)
    → IsEnded s input.attempt_id
    → finish_import_attempt s input now ≡ ok (false, s)
unfolding finish_import_attempt finish_running_import_attempt_on settle_attempt
finish-IsEnded s input now e = rw (context-IsEnded s input.attempt_id e) refl

recounted_job :
    (s : Store) (job_id : Text) (now : ℕ) (t : Store) (id : Text) (job : ImportJob)
    → recompute_import_job_counts_on s job_id now ≡ ok t
    → get_import_job_summary s id ≡ some job
    → (job' : ImportJob) × (get_import_job_summary t id ≡ some job')
unfolding get_import_job_summary recounted
recounted_job s job_id now t id job done h = (
  if job_has_id job_id job then recounted s.items job_id now job else job,
  rw (recompute-eq s job_id now t done) (
      find_where-update_where (job_has_id id) (job_has_id job_id) (recounted s.items job_id now)
        s.jobs job (λ y. refl) h),
)

-- What a context says: the attempt runs, and its item and its job are in their tables.
pub record IsLive (s : Store) (attempt_id item_id job_id : Text) : Type 0 where
  pub attempt : ImportAttempt
  pub item : ImportJobItem
  pub job : ImportJob
  pub has_attempt : get_import_attempt s attempt_id ≡ some attempt
  pub has_item : get_import_job_item s item_id ≡ some item
  pub has_job : get_import_job_summary s job_id ≡ some job
  pub item_owner : attempt.job_item_id ≡ item_id
  pub job_owner : item.job_id ≡ job_id
  pub runs : is_running_attempt attempt.status ≡ true

pub context-IsLive :
    (s : Store) (attempt_id item_id job_id : Text)
    → running_import_attempt_context s attempt_id ≡ ok (some (item_id, job_id))
    → IsLive s attempt_id item_id job_id
unfolding running_import_attempt_context
context-IsLive s attempt_id item_id job_id h =
    let (attempt, e1, h1) = or_fail->>=-eq-ok (get_import_attempt s attempt_id) _ h in
    let (item, e2, h2) = or_fail->>=-eq-ok (get_import_job_item s attempt.job_item_id) _ h1 in
    let (job, e3, h3) = or_fail->>=-eq-ok (get_import_job_summary s item.job_id) _ h2 in
    record {
      attempt = attempt;
      item = item;
      job = job;
      has_attempt = e1;
      has_item = ground (arith, h3, e2);
      has_job = ground (arith, h3, e3);
      item_owner = ground (arith, h3);
      job_owner = ground (arith, h3);
      runs = ground (arith, h3);
    }

-- An attempt that stands in the table with its item and job, and does not run.
pub record IsSettled (s : Store) (attempt_id : Text) : Type 0 where
  pub attempt : ImportAttempt
  pub item : ImportJobItem
  pub job : ImportJob
  pub has_attempt : get_import_attempt s attempt_id ≡ some attempt
  pub has_item : get_import_job_item s attempt.job_item_id ≡ some item
  pub has_job : get_import_job_summary s item.job_id ≡ some job
  pub ended : is_running_attempt attempt.status ≡ false

pub IsSettled-IsEnded :
    (s : Store) (attempt_id : Text) → IsSettled s attempt_id → IsEnded s attempt_id
IsSettled-IsEnded s attempt_id e = record {
  attempt = e.attempt;
  item = e.item;
  job = e.job;
  has_attempt = e.has_attempt;
  has_item = e.has_item;
  has_job = e.has_job;
  ended = ground (arith, e.ended);
}

-- Where an attempt is settled, its row has the result and its item and job are still there.
pub finish-IsSettled :
    (s : Store) (input : FinishImportAttemptInput) (now : ℕ) (item_id job_id : Text) (t : Store)
    → is_running_attempt input.status ≡ false
    → IsLive s input.attempt_id item_id job_id
    → recompute_import_job_counts_on (with_result s input now item_id) job_id now ≡ ok t
    → IsSettled t input.attempt_id
unfolding get_import_attempt get_import_job_item get_import_job_summary
finish-IsSettled s input now item_id job_id t final live done =
    let same : t ≡ recount_of (with_result s input now item_id) job_id now =
      recompute-eq (with_result s input now item_id) job_id now t done in
    let (job', has_job') =
      recounted_job (with_result s input now item_id) job_id now t job_id live.job done
        live.has_job in
    let row : is_running_attempt_of input.attempt_id live.attempt ≡ true = ground (
      arith,
      live.runs,
      find_where-holds (attempt_has_id input.attempt_id) s.attempts live.attempt live.has_attempt,
    ) in
    record {
      attempt = finished input now live.attempt;
      item = if is_running_item item_id live.item then settled input live.item else live.item;
      job = job';
      has_attempt = rw same (
          find_where-update_where (attempt_has_id input.attempt_id)
            (is_running_attempt_of input.attempt_id) (finished input now) s.attempts live.attempt
            (λ y. refl) live.has_attempt
          ∙ ground (arith, row));
      has_item =
          rw (same, live.item_owner)
            (find_where-update_where (item_has_id item_id) (is_running_item item_id) (settled input)
              s.items live.item (λ y. refl) live.has_item);
      has_job = ground (arith, has_job', live.job_owner);
      ended = final;
    }
