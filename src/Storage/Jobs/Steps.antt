-- ===== src/Storage/Jobs/Steps.antt =====
-- storage.rs: the operations on import jobs as steps, in any order.
use ship_flow_tauri.Prelude.{
  ℕ, Text, Bool, false, Option, List, ◌≡◌, refl, sym, subst, ap, ◌∙◌, inl, inr, arith, [], ◌∷◌,
  text_eq,
}
use ship_flow_tauri.Prelude.Table.{any, update_where}
use ship_flow_tauri.Storage.Tables.{Store, >>=-eq-ok, ImportJob, ImportJobItem, ImportAttempt, ok}
use ship_flow_tauri.Storage.Jobs.{
  has_active_job, job_has_id, claim_next_pending_import_job_item, recompute_import_job_counts_on,
}
use ship_flow_tauri.Storage.Jobs.Counts.{IsConsistent, recompute-eq}
use ship_flow_tauri.Storage.Jobs.Counts.Claims.{claim-IsConsistent, claim-cases, with_claim}
use ship_flow_tauri.Storage.Jobs.Attempts.{
  CreateImportJobItemInput, finish_manifest_import_attempt_with_items,
  finish_bag_import_attempt_with_sheet_rows, StartImportAttemptInput, FinishImportAttemptInput,
  start_import_attempt, finish_import_attempt, with_attempt, with_result,
}
use ship_flow_tauri.Storage.Jobs.Attempts.Counted.{
  start_import_attempt-IsConsistent, finish_import_attempt-IsConsistent,
}
use ship_flow_tauri.Storage.Jobs.Attempts.Results.{
  finish_manifest-IsConsistent, finish_bag-IsConsistent,
}
use ship_flow_tauri.Storage.Jobs.Attempts.Commits.{
  IsCommit, finish_manifest-IsCommit, finish_bag-IsCommit,
}
use ship_flow_tauri.Storage.Rows.{UpsertSheetRowInput}
use ship_flow_tauri.Storage.Jobs.Attempts.Outcomes.{
  start_import_attempt-done, finish_running-done, finish_import_attempt-cases,
}
use ship_flow_tauri.Storage.Jobs.Lifecycle.{
  ImportRetryTargets, JobRecoverySummary, cancel_import_job, recover_interrupted_import_jobs,
  retry_import_job_failed, cancelled_job, cancel_store, recompute_all, requeued_store,
  recovery_summary,
}
use ship_flow_tauri.Storage.Jobs.Lifecycle.Cancelled.{cancel_import_job-IsConsistent, cancel-eq}
use ship_flow_tauri.Storage.Jobs.Lifecycle.Recovery.{recover-IsConsistent, recover-done}
use ship_flow_tauri.Storage.Jobs.Lifecycle.Retries.{
  retry-IsConsistent, retry-IsRecount, recounted_inactive, reset_store,
}

-- One call of an operation that commits.
pub data JobStep (s t : Store) : Type 0 where
  claim :
      (job_id : Text) (now : ℕ) (o : Option ImportJobItem)
      → claim_next_pending_import_job_item s job_id now ≡ ok (o, t)
      → JobStep s t
  start :
      (input : StartImportAttemptInput) (now : ℕ) (attempt : ImportAttempt)
      → start_import_attempt s input now ≡ ok (attempt, t)
      → JobStep s t
  finish :
      (input : FinishImportAttemptInput) (now : ℕ) (done : Bool)
      → finish_import_attempt s input now ≡ ok (done, t)
      → JobStep s t
  finish_manifest :
      (input : FinishImportAttemptInput) (items : List CreateImportJobItemInput) (now : ℕ)
      (done : Bool)
      → finish_manifest_import_attempt_with_items s input items now ≡ ok (done, t)
      → JobStep s t
  finish_bag :
      (input : FinishImportAttemptInput) (item_id : Text) (rows : List (UpsertSheetRowInput × Text))
      (sheet_row_ids : List Text) (now : ℕ) (done : Bool)
      → finish_bag_import_attempt_with_sheet_rows s input item_id rows sheet_row_ids now
        ≡ ok (done, t)
      → JobStep s t
  cancel : (job_id : Text) (now : ℕ) → cancel_import_job s job_id now ≡ ok t → JobStep s t
  recover :
      (now : ℕ) (summary : JobRecoverySummary)
      → recover_interrupted_import_jobs s now ≡ ok (summary, t)
      → JobStep s t
  retry :
      (job_id : Text) (max_attempts now : ℕ) (targets : ImportRetryTargets)
      → retry_import_job_failed s job_id max_attempts now ≡ ok (targets, t)
      → JobStep s t

-- Any number of steps, in any order.
pub data JobReach (s : Store) : Store → Type 0 where
  here : JobReach s s
  then : {t u : Store} → JobReach s t → JobStep t u → JobReach s u

JobStep-IsConsistent : (s t : Store) → JobStep s t → IsConsistent s → IsConsistent t
JobStep-IsConsistent s t (claim job_id now o h) c = claim-IsConsistent s job_id now o t h c
JobStep-IsConsistent s t (start input now attempt h) c =
    start_import_attempt-IsConsistent s input now attempt t h c
JobStep-IsConsistent s t (finish input now done h) c =
    finish_import_attempt-IsConsistent s input now done t h c
JobStep-IsConsistent s t (finish_manifest input items now done h) c =
    finish_manifest-IsConsistent s input items now done t h c
JobStep-IsConsistent s t (finish_bag input item_id rows sheet_row_ids now done h) c =
    finish_bag-IsConsistent s input item_id rows sheet_row_ids now done t h c
JobStep-IsConsistent s t (cancel job_id now h) c = cancel_import_job-IsConsistent s job_id now t h c
JobStep-IsConsistent s t (recover now summary h) c = recover-IsConsistent s now summary t h c
JobStep-IsConsistent s t (retry job_id max_attempts now targets h) c =
    retry-IsConsistent s job_id max_attempts now targets t h c

-- However claims, starts, results of all three kinds, cancellations, recoveries and retries are
-- interleaved, item ids stay unique and the counts and the status of every job stay those of its items.
pub JobReach-IsConsistent : (s t : Store) → JobReach s t → IsConsistent s → IsConsistent t
JobReach-IsConsistent s _ here c = c
JobReach-IsConsistent s _ (then {t} {u} r step) c =
    JobStep-IsConsistent t u step (JobReach-IsConsistent s t r c)

recompute_inactive :
    (s : Store) (job_id : Text) (now : ℕ) (t : Store) (id : Text)
    → recompute_import_job_counts_on s job_id now ≡ ok t
    → has_active_job s.jobs id ≡ false
    → has_active_job t.jobs id ≡ false
recompute_inactive s job_id now t id done h =
    ap (λ u. has_active_job u.jobs id) (recompute-eq s job_id now t done)
    ∙ recounted_inactive s.items job_id id now s.jobs h

recompute_all_inactive :
    (s : Store) (ids : List Text) (now : ℕ) (t : Store) (id : Text)
    → recompute_all s ids now ≡ ok t
    → has_active_job s.jobs id ≡ false
    → has_active_job t.jobs id ≡ false
unfolding recompute_all
recompute_all_inactive s [] now t id done h =
    let e : s ≡ t = ground (arith, done) in subst (λ u. has_active_job u.jobs id ≡ false) e h
recompute_all_inactive s (job_id ∷ ids) now t id done h =
    let (u, first, rest) = >>=-eq-ok (recompute_import_job_counts_on s job_id now) _ done in
    recompute_all_inactive u ids now t id rest (recompute_inactive s job_id now u id first h)

cancelled_inactive :
    (items : List ImportJobItem) (job_id id : Text) (now : ℕ) (jobs : List ImportJob)
    → has_active_job jobs id ≡ false
    → has_active_job (update_where (job_has_id job_id) (cancelled_job items job_id now) jobs) id
      ≡ false
unfolding has_active_job any update_where
cancelled_inactive items job_id id now [] h = refl
cancelled_inactive items job_id id now (job ∷ jobs) h =
    ground (arith, h, cancelled_inactive items job_id id now jobs)

commit_inactive :
    (s : Store) (input : FinishImportAttemptInput) (now : ℕ) (done : Bool) (t : Store) (id : Text)
    → IsCommit s input now done t
    → has_active_job s.jobs id ≡ false
    → has_active_job t.jobs id ≡ false
commit_inactive s input now done t id (inl (same, _)) c =
    subst (λ u. has_active_job u.jobs id ≡ false) (sym same) c
commit_inactive s input now done t id (inr (u, jobs, _, ran)) c =
    let (item_id, job_id, _, counted) = finish_running-done u input now t ran in
    recompute_inactive (with_result u input now item_id) job_id now t id counted
      (subst (λ js. has_active_job js id ≡ false) (sym jobs) c)

JobStep_inactive :
    (s t : Store) (id : Text)
    → JobStep s t
    → has_active_job s.jobs id ≡ false
    → has_active_job t.jobs id ≡ false
JobStep_inactive s t id (claim job_id now o h) c = elim (claim-cases s job_id now o t h) [
  | inl same ↦ subst (λ u. has_active_job u.jobs id ≡ false) (sym same) c
  | inr (item, _, done) ↦ recompute_inactive (with_claim s item) job_id now t id done c
]
JobStep_inactive s t id (start input now attempt h) c =
    let (item, _, done) = start_import_attempt-done s input now attempt t h in
    recompute_inactive (with_attempt s input now) item.job_id now t id done c
JobStep_inactive s t id (finish input now done h) c =
    elim (finish_import_attempt-cases s input now done t h) [
      | inl (same, _) ↦ subst (λ u. has_active_job u.jobs id ≡ false) (sym same) c
      | inr ran ↦
          let (item_id, job_id, _, counted) = finish_running-done s input now t ran in
          recompute_inactive (with_result s input now item_id) job_id now t id counted c
    ]
JobStep_inactive s t id (finish_manifest input items now done h) c =
    commit_inactive s input now done t id (finish_manifest-IsCommit s input items now done t h) c
JobStep_inactive s t id (finish_bag input item_id rows sheet_row_ids now done h) c =
    commit_inactive s input now done t id
      (finish_bag-IsCommit s input item_id rows sheet_row_ids now done t h) c
JobStep_inactive s t id (cancel job_id now h) c =
    subst (λ u. has_active_job u.jobs id ≡ false) (cancel-eq s job_id now t h)
      (cancelled_inactive (cancel_store s job_id now).items job_id id now s.jobs c)
JobStep_inactive s t id (recover now summary h) c =
    recompute_all_inactive (requeued_store s now) (recovery_summary s).recovered_job_ids now t id
      (recover-done s now summary t h) c
JobStep_inactive s t id (retry job_id max_attempts now targets h) c =
    recompute_inactive (reset_store s job_id max_attempts) job_id now t id
      (retry-IsRecount s job_id max_attempts now targets t h) c

-- A job that is cancelled stays so: no sequence of claims, starts, results, cancellations,
-- recoveries and retries makes it active again.
pub JobReach-inactive :
    (s t : Store) (id : Text)
    → JobReach s t
    → has_active_job s.jobs id ≡ false
    → has_active_job t.jobs id ≡ false
JobReach-inactive s _ id here c = c
JobReach-inactive s _ id (then {t} {u} r step) c =
    JobStep_inactive t u id step (JobReach-inactive s t id r c)
