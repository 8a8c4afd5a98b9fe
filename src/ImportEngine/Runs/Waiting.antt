-- ===== src/ImportEngine/Runs/Waiting.antt =====
-- import_engine.rs: the items of a job that wait, over starts and results.
use ship_flow_tauri.Prelude.{
  ℕ, Text, Bool, true, false, Option, some, none, List, ◌≡◌, refl, ap, subst, ◌∙◌, ◌==◌, text_eq,
  ◌&&◌, ◌⊎◌, count, inl, inr, arith, nat_eq,
}
use ship_flow_tauri.Prelude.Table.{update_where, count-update_where, All-always}
use ship_flow_tauri.Prelude.Outcome.{ok, >>=-eq-ok, guard->>-eq-ok}
use ship_flow_tauri.Storage.Tables.{
  Store, ImportJobItem, ImportJobItemStatus, ImportAttempt, item_status_eq,
  item_status_for_attempt_status, Result,
}
use ship_flow_tauri.Storage.Rows.{UpsertSheetRowInput, upsert_all}
use ship_flow_tauri.Storage.Rows.Batches.{upsert_all-tables}
use ship_flow_tauri.Storage.Jobs.{item_of_job, has_status, recompute_import_job_counts_on}
use ship_flow_tauri.Storage.Jobs.Counts.{recompute-eq}
use ship_flow_tauri.Storage.Jobs.Attempts.{
  StartImportAttemptInput, FinishImportAttemptInput, start_import_attempt, started, settled,
  with_ids, is_running_item, with_result, with_attempt, with_row_ids, finish_import_attempt,
  finish_running_import_attempt_on, running_import_attempt_context, commit, finish_with_rows,
  finish_bag_import_attempt_with_sheet_rows,
}
use ship_flow_tauri.Storage.Jobs.Attempts.Outcomes.{
  start_import_attempt-done, finish_running-done, finish_import_attempt-cases,
}
use ship_flow_tauri.ImportEngine.Runs.{job_size}

abbrev pub waits_in : Text → ImportJobItem → Bool
waits_in job_id item = item_of_job job_id item && has_status ImportJobItemStatus.pending item

-- How many items of the job wait.
abbrev pub waiting : Store → Text → ℕ
waiting s job_id = count (waits_in job_id) s.items

-- The same number of items wait, among as many.
pub record IsKept (job_id : Text) (s t : Store) : Type 0 where
  pub waits : waiting t job_id ≡ waiting s job_id
  pub size : job_size t job_id ≡ job_size s job_id

pub recompute-items :
    (s : Store) (job_id : Text) (now : ℕ) (t : Store)
    → recompute_import_job_counts_on s job_id now ≡ ok t
    → t.items ≡ s.items
recompute-items s job_id now t h = ap (λ (u : Store). u.items) (recompute-eq s job_id now t h)

-- An update that changes neither the jobs of items nor which of them are pending.
pub update-IsKept :
    (job_id : Text) (p : ImportJobItem → Bool) (f : ImportJobItem → ImportJobItem) (s t : Store)
    → t.items ≡ update_where p f s.items
    → ((y : ImportJobItem) → (f y).job_id ≡ y.job_id)
    → ((y : ImportJobItem)
        → p y ≡ true
        → has_status ImportJobItemStatus.pending (f y) ≡ has_status ImportJobItemStatus.pending y)
    → IsKept job_id s t
update-IsKept job_id p f s t e keeps_job keeps_status = record {
  waits =
      ap (count (waits_in job_id)) e
      ∙ count-update_where (waits_in job_id) p f s.items
          (All-always _ s.items (λ y m. ground (arith, keeps_job y, keeps_status y m)));
  size =
      ap (count (item_of_job job_id)) e
      ∙ count-update_where (item_of_job job_id) p f s.items
          (All-always _ s.items (λ y m. ground (arith, keeps_job y)));
}

pub same-IsKept : (job_id : Text) (s t : Store) → t ≡ s → IsKept job_id s t
same-IsKept job_id s t e = record {
  waits = ap (λ u. waiting u job_id) e;
  size = ap (λ u. job_size u job_id) e;
}

pub trans-IsKept :
    (job_id : Text) (s t u : Store) → IsKept job_id s t → IsKept job_id t u → IsKept job_id s u
trans-IsKept job_id s t u st tu = record { waits = tu.waits ∙ st.waits; size = tu.size ∙ st.size }

pub start-IsKept :
    (job_id : Text) (s : Store) (input : StartImportAttemptInput) (now : ℕ)
    (attempt : ImportAttempt) (t : Store)
    → start_import_attempt s input now ≡ ok (attempt, t)
    → IsKept job_id s t
start-IsKept job_id s input now attempt t h =
    let (item, _, done) = start_import_attempt-done s input now attempt t h in
    update-IsKept job_id (is_running_item input.item_id) started s t
      (recompute-items (with_attempt s input now) item.job_id now t done) (λ y. refl) (λ y m. refl)

settled_status :
    (input : FinishImportAttemptInput) (item_id : Text) (y : ImportJobItem)
    → is_running_item item_id y ≡ true
    → has_status ImportJobItemStatus.pending (settled input y)
      ≡ has_status ImportJobItemStatus.pending y
unfolding item_status_for_attempt_status
settled_status input item_id y m = ground (arith, m)

finish_running-IsKept :
    (job_id : Text) (s : Store) (input : FinishImportAttemptInput) (now : ℕ) (t : Store)
    → finish_running_import_attempt_on s input now ≡ ok (some t)
    → IsKept job_id s t
finish_running-IsKept job_id s input now t h =
    let (item_id, job, _, counted) = finish_running-done s input now t h in
    update-IsKept job_id (is_running_item item_id) (settled input) s t
      (recompute-items (with_result s input now item_id) job now t counted) (λ y. refl)
      (settled_status input item_id)

pub finish-IsKept :
    (job_id : Text) (s : Store) (input : FinishImportAttemptInput) (now : ℕ) (done : Bool)
    (t : Store)
    → finish_import_attempt s input now ≡ ok (done, t)
    → IsKept job_id s t
finish-IsKept job_id s input now done t h =
    elim (finish_import_attempt-cases s input now done t h) [
      | inl (same, _) ↦ same-IsKept job_id s t same
      | inr ran ↦ finish_running-IsKept job_id s input now t ran
    ]

-- A commit of nothing, or of the finish of an attempt.
pub commit-IsKept :
    (job_id : Text) (s u : Store) (input : FinishImportAttemptInput) (now : ℕ) (o : Option Store)
    (done : Bool) (t : Store)
    → finish_running_import_attempt_on u input now ≡ ok o
    → ◌≡◌ {A = Result (Bool × Store)} (ok (commit s o)) (ok (done, t))
    → (t ≡ s) ⊎ IsKept job_id u t
commit-IsKept job_id s u input now none done t ran h = inl (ground (arith, h))
commit-IsKept job_id s u input now (some v) done t ran h =
    let e : v ≡ t = ground (arith, h) in
    inr (
      finish_running-IsKept job_id u input now t
        (subst (λ w. finish_running_import_attempt_on u input now ≡ ok (some w)) e ran))

pub finish_bag-IsKept :
    (job_id : Text) (s : Store) (input : FinishImportAttemptInput) (item_id : Text)
    (rows : List (UpsertSheetRowInput × Text)) (sheet_row_ids : List Text) (now : ℕ) (done : Bool)
    (t : Store)
    → finish_bag_import_attempt_with_sheet_rows s input item_id rows sheet_row_ids now
      ≡ ok (done, t)
    → IsKept job_id s t
unfolding finish_bag_import_attempt_with_sheet_rows finish_with_rows
finish_bag-IsKept job_id s input item_id rows sheet_row_ids now done t h =
    let (context, _, h1) = >>=-eq-ok (running_import_attempt_context s input.attempt_id) _ h in
    by_context context h1
  where
    by_context :
        (context : Option (Text × Text))
        → finish_with_rows s input item_id rows sheet_row_ids now context ≡ ok (done, t)
        → IsKept job_id s t
    by_context none h1 = same-IsKept job_id s t (ground (arith, h1))
    by_context (some (i, j)) h1 =
        let (_, h2) = guard->>-eq-ok (i == item_id) _ h1 in
        let (v, written, h3) = >>=-eq-ok (upsert_all s rows false) _ h2 in
        let u = with_row_ids v item_id sheet_row_ids in
        let (o, ran, h4) = >>=-eq-ok (finish_running_import_attempt_on u input now) _ h3 in
        let (same, _, _) = upsert_all-tables s rows false v written in
        let prepared : IsKept job_id s u =
          update-IsKept job_id (is_running_item item_id) (with_ids sheet_row_ids) s u
            (ap (update_where (is_running_item item_id) (with_ids sheet_row_ids)) same) (λ y. refl)
            (λ y m. refl) in
        elim (commit-IsKept job_id s u input now o done t ran h4) [
          | inl e ↦ same-IsKept job_id s t e
          | inr kept ↦ trans-IsKept job_id s u t prepared kept
        ]
