-- ===== src/Storage/Jobs/Once.antt =====
-- storage.rs: an attempt has one result, whatever else happens to the import jobs meanwhile.
use ship_flow_tauri.Prelude.{
  ℕ, Text, Bool, true, false, some, List, [], ◌∷◌, ◌≡◌, refl, sym, subst, text_eq, inl, inr, arith,
}
use ship_flow_tauri.Storage.Tables.{
  ImportJobItemStatus, Store, Result, ok, >>=-eq-ok, is_running_attempt, item_status_eq,
}
use ship_flow_tauri.Storage.Rows.{UpsertSheetRowInput}
use ship_flow_tauri.Storage.Jobs.{
  job_has_id, has_status, get_import_job_item, get_import_attempt, get_import_job_summary,
  recompute_import_job_counts_on, claimed,
}
use ship_flow_tauri.Storage.Jobs.Counts.Claims.{claim-cases, with_claim, claim_matches}
use ship_flow_tauri.Storage.Jobs.Attempts.{
  CreateImportJobItemInput, FinishImportAttemptInput, finish_import_attempt,
  finish_manifest_import_attempt_with_items, finish_with_items,
  finish_bag_import_attempt_with_sheet_rows, finish_with_rows, with_attempt, new_attempt,
  is_running_item, started, with_result, is_running_attempt_of, finished, settled,
  finish_running_import_attempt_on,
}
use ship_flow_tauri.Storage.Jobs.Attempts.Outcomes.{
  finish_running-done, finish_import_attempt-cases, start_import_attempt-done,
}
use ship_flow_tauri.Storage.Jobs.Attempts.Kept.{
  Keeps, same-Keeps, trans-Keeps, same-KeepsAttempts, same-KeepsJobs, update-KeepsAttempts,
  append-KeepsAttempts, update-KeepsItems, update-KeepsJobs, recompute-Keeps,
}
use ship_flow_tauri.Storage.Jobs.Attempts.Late.{
  IsSettled, IsSettled-IsEnded, context-IsEnded, context-IsLive, finish-IsEnded, finish-IsSettled,
}
use ship_flow_tauri.Storage.Jobs.Attempts.Commits.{
  IsCommit, finish_manifest-IsCommit, finish_bag-IsCommit,
}
use ship_flow_tauri.Storage.Jobs.Lifecycle.{
  cancel_store, is_open_attempt, cancelled_attempt, is_open_item, cancelled_item, cancelled_job,
  requeued_store, is_unfinished, interrupted_attempt, requeued, recompute_all, recovery_summary,
}
use ship_flow_tauri.Storage.Jobs.Lifecycle.Cancelled.{cancel-eq}
use ship_flow_tauri.Storage.Jobs.Lifecycle.Recovery.{recover-done}
use ship_flow_tauri.Storage.Jobs.Lifecycle.Retries.{
  retry-IsRecount, reset_store, reset_items-KeepsItems,
}
use ship_flow_tauri.Storage.Jobs.Steps.{
  JobStep, claim, start, finish, finish_manifest, finish_bag, cancel, recover, retry, JobReach,
  here, then,
}

claim-Keeps : (s : Store) (item : _) → Keeps s (with_claim s item)
claim-Keeps s item = record {
  attempts = same-KeepsAttempts s.attempts;
  items = update-KeepsItems (claim_matches s item) claimed s.items (λ y. refl) (λ y. refl);
  jobs = same-KeepsJobs s.jobs;
}

start-Keeps : (s : Store) (input : _) (now : ℕ) → Keeps s (with_attempt s input now)
start-Keeps s input now = record {
  attempts = append-KeepsAttempts s.attempts (new_attempt s input now);
  items = update-KeepsItems (is_running_item input.item_id) started s.items (λ y. refl) (λ y. refl);
  jobs = same-KeepsJobs s.jobs;
}

result-Keeps :
    (s : Store) (input : FinishImportAttemptInput) (now : ℕ) (item_id : Text)
    → Keeps s (with_result s input now item_id)
result-Keeps s input now item_id = record {
  attempts =
      update-KeepsAttempts (is_running_attempt_of input.attempt_id) (finished input now) s.attempts
        (λ y. refl) (λ y h. ground (arith, h));
  items =
      update-KeepsItems (is_running_item item_id) (settled input) s.items (λ y. refl) (λ y. refl);
  jobs = same-KeepsJobs s.jobs;
}

cancel-Keeps : (s : Store) (job_id : Text) (now : ℕ) → Keeps s (cancel_store s job_id now)
cancel-Keeps s job_id now = record {
  attempts =
      update-KeepsAttempts (is_open_attempt s.items job_id) (cancelled_attempt now) s.attempts
        (λ y. refl) (λ y h. ground (arith, h));
  items = update-KeepsItems (is_open_item job_id) cancelled_item s.items (λ y. refl) (λ y. refl);
  jobs =
      update-KeepsJobs (job_has_id job_id)
        (cancelled_job (cancel_store s job_id now).items job_id now) s.jobs (λ y. refl);
}

requeue-Keeps : (s : Store) (now : ℕ) → Keeps s (requeued_store s now)
requeue-Keeps s now = record {
  attempts =
      update-KeepsAttempts is_unfinished (interrupted_attempt now) s.attempts (λ y. refl)
        (λ y h. ground (arith, h));
  items =
      update-KeepsItems (has_status ImportJobItemStatus.running) requeued s.items (λ y. refl)
        (λ y. refl);
  jobs = same-KeepsJobs s.jobs;
}

reset-Keeps :
    (s : Store) (job_id : Text) (max_attempts : ℕ) → Keeps s (reset_store s job_id max_attempts)
reset-Keeps s job_id max_attempts = record {
  attempts = same-KeepsAttempts s.attempts;
  items = reset_items-KeepsItems s.items _;
  jobs = same-KeepsJobs s.jobs;
}

recompute_all-Keeps :
    (s : Store) (ids : List Text) (now : ℕ) (t : Store) → recompute_all s ids now ≡ ok t → Keeps s t
unfolding recompute_all
recompute_all-Keeps s [] now t done = let e : s ≡ t = ground (arith, done) in same-Keeps s t (sym e)
recompute_all-Keeps s (job_id ∷ ids) now t done =
    let (u, first, rest) = >>=-eq-ok (recompute_import_job_counts_on s job_id now) _ done in
    trans-Keeps s u t (recompute-Keeps s job_id now u first) (recompute_all-Keeps u ids now t rest)

finish_running-Keeps :
    (s : Store) (input : FinishImportAttemptInput) (now : ℕ) (t : Store)
    → finish_running_import_attempt_on s input now ≡ ok (some t)
    → Keeps s t
finish_running-Keeps s input now t ran =
    let (item_id, job_id, _, counted) = finish_running-done s input now t ran in
    trans-Keeps s (with_result s input now item_id) t (result-Keeps s input now item_id)
      (recompute-Keeps (with_result s input now item_id) job_id now t counted)

commit-Keeps :
    (s : Store) (input : FinishImportAttemptInput) (now : ℕ) (done : Bool) (t : Store)
    → IsCommit s input now done t
    → Keeps s t
commit-Keeps s input now done t (inl (same, _)) = same-Keeps s t same
commit-Keeps s input now done t (inr (u, _, kept, ran)) =
    trans-Keeps s u t kept (finish_running-Keeps u input now t ran)

finish-IsCommit :
    (s : Store) (input : FinishImportAttemptInput) (now : ℕ) (done : Bool) (t : Store)
    → finish_import_attempt s input now ≡ ok (done, t)
    → IsCommit s input now done t
finish-IsCommit s input now done t h = elim (finish_import_attempt-cases s input now done t h) [
  | inl same ↦ inl same
  | inr ran ↦ inr (s, refl, same-Keeps s s refl, ran)
]

JobStep-Keeps : (s t : Store) → JobStep s t → Keeps s t
JobStep-Keeps s t (claim job_id now o h) = elim (claim-cases s job_id now o t h) [
  | inl same ↦ same-Keeps s t same
  | inr (item, _, done) ↦
      trans-Keeps s (with_claim s item) t (claim-Keeps s item)
        (recompute-Keeps (with_claim s item) job_id now t done)
]
JobStep-Keeps s t (start input now attempt h) =
    let (item, _, done) = start_import_attempt-done s input now attempt t h in
    trans-Keeps s (with_attempt s input now) t (start-Keeps s input now)
      (recompute-Keeps (with_attempt s input now) item.job_id now t done)
JobStep-Keeps s t (finish input now done h) =
    commit-Keeps s input now done t (finish-IsCommit s input now done t h)
JobStep-Keeps s t (finish_manifest input items now done h) =
    commit-Keeps s input now done t (finish_manifest-IsCommit s input items now done t h)
JobStep-Keeps s t (finish_bag input item_id rows sheet_row_ids now done h) =
    commit-Keeps s input now done t
      (finish_bag-IsCommit s input item_id rows sheet_row_ids now done t h)
JobStep-Keeps s t (cancel job_id now h) =
    subst (Keeps s) (cancel-eq s job_id now t h) (cancel-Keeps s job_id now)
JobStep-Keeps s t (recover now summary h) =
    trans-Keeps s (requeued_store s now) t (requeue-Keeps s now) (
      recompute_all-Keeps (requeued_store s now) (recovery_summary s).recovered_job_ids now t
        (recover-done s now summary t h))
JobStep-Keeps s t (retry job_id max_attempts now targets h) =
    trans-Keeps s (reset_store s job_id max_attempts) t (reset-Keeps s job_id max_attempts) (
      recompute-Keeps (reset_store s job_id max_attempts) job_id now t
        (retry-IsRecount s job_id max_attempts now targets t h))

JobReach-Keeps : (s t : Store) → JobReach s t → Keeps s t
JobReach-Keeps s _ here = same-Keeps s s refl
JobReach-Keeps s _ (then {t} {u} r step) =
    trans-Keeps s t u (JobReach-Keeps s t r) (JobStep-Keeps t u step)

-- A settled attempt stays so.
Keeps-IsSettled :
    (s t : Store) (attempt_id : Text) → Keeps s t → IsSettled s attempt_id → IsSettled t attempt_id
unfolding get_import_attempt get_import_job_item get_import_job_summary
Keeps-IsSettled s t attempt_id kept e =
    let (item, has_item, owner) = kept.items e.attempt.job_item_id e.item e.has_item in
    let (job, has_job) = kept.jobs e.item.job_id e.job e.has_job in
    record {
      attempt = e.attempt;
      item = item;
      job = job;
      has_attempt = kept.attempts attempt_id e.attempt e.has_attempt e.ended;
      has_item = has_item;
      has_job = rw owner has_job;
      ended = e.ended;
    }

-- How a result comes: alone, with the items of a manifest, or with the sheet rows of a bag.
pub data Delivery : Type 0 where
  alone : Delivery
  with_items : List CreateImportJobItemInput → Delivery
  with_rows : Text → List (UpsertSheetRowInput × Text) → List Text → Delivery

abbrev pub deliver : Store → Delivery → FinishImportAttemptInput → ℕ → Result (Bool × Store)
deliver s alone input now = finish_import_attempt s input now
deliver s (with_items items) input now = finish_manifest_import_attempt_with_items s input items now
deliver s (with_rows item_id rows sheet_row_ids) input now =
    finish_bag_import_attempt_with_sheet_rows s input item_id rows sheet_row_ids now

deliver-IsCommit :
    (s : Store) (how : Delivery) (input : FinishImportAttemptInput) (now : ℕ) (done : Bool)
    (t : Store)
    → deliver s how input now ≡ ok (done, t)
    → IsCommit s input now done t
deliver-IsCommit s alone input now done t h = finish-IsCommit s input now done t h
deliver-IsCommit s (with_items items) input now done t h =
    finish_manifest-IsCommit s input items now done t h
deliver-IsCommit s (with_rows item_id rows sheet_row_ids) input now done t h =
    finish_bag-IsCommit s input item_id rows sheet_row_ids now done t h

-- A result that was taken settles its attempt.
taken-IsSettled :
    (s : Store) (input : FinishImportAttemptInput) (now : ℕ) (t : Store)
    → is_running_attempt input.status ≡ false
    → IsCommit s input now true t
    → IsSettled t input.attempt_id
taken-IsSettled s input now t final (inl (_, e)) = absurd (ground (arith, e))
taken-IsSettled s input now t final (inr (u, _, _, ran)) =
    let (item_id, job_id, found, done) = finish_running-done u input now t ran in
    finish-IsSettled u input now item_id job_id t final
      (context-IsLive u input.attempt_id item_id job_id found) done

refused :
    (s : Store) (how : Delivery) (input : FinishImportAttemptInput) (now : ℕ)
    → IsSettled s input.attempt_id
    → deliver s how input now ≡ ok (false, s)
unfolding finish_manifest_import_attempt_with_items finish_with_items
    finish_bag_import_attempt_with_sheet_rows finish_with_rows
refused s alone input now e = finish-IsEnded s input now (IsSettled-IsEnded s input.attempt_id e)
refused s (with_items items) input now e =
    rw (context-IsEnded s input.attempt_id (IsSettled-IsEnded s input.attempt_id e)) refl
refused s (with_rows item_id rows sheet_row_ids) input now e =
    rw (context-IsEnded s input.attempt_id (IsSettled-IsEnded s input.attempt_id e)) refl

-- Once a result that is not `running` has been taken for an attempt, every later result for that
-- attempt is refused and changes nothing: however the two come, alone, with items or with sheet rows,
-- and whatever claims, starts, results, cancellations, recoveries and retries come in between.
pub finish_once :
    (s : Store) (first late : Delivery) (input again : FinishImportAttemptInput) (now later : ℕ)
    (t u : Store)
    → is_running_attempt input.status ≡ false
    → again.attempt_id ≡ input.attempt_id
    → deliver s first input now ≡ ok (true, t)
    → JobReach t u
    → deliver u late again later ≡ ok (false, u)
finish_once s first late input again now later t u final same h between =
    let settled_then =
      taken-IsSettled s input now t final (deliver-IsCommit s first input now true t h) in
    refused u late again later (
      subst (IsSettled u) (sym same)
        (Keeps-IsSettled t u input.attempt_id (JobReach-Keeps t u between) settled_then))
