-- ===== src/Storage/Jobs/Attempts/Outcomes.antt =====
-- storage.rs: the parts of a successful start or finish of an attempt.
use ship_flow_tauri.Prelude.{
  ℕ, Text, Bool, false, Option, none, some, ◌≡◌, ◌==◌, text_eq, nat_eq, not, count, Bool-cases, inl,
  inr, ◌⊎◌, arith,
}
use ship_flow_tauri.Prelude.Table.{find_where}
use ship_flow_tauri.Storage.Tables.{
  blob_exists, Store, ImportJobItem, ImportAttempt, Result, ok, >>=-eq-ok, or_fail->>=-eq-ok,
  guard->>-eq-ok,
}
use ship_flow_tauri.Storage.Jobs.{
  item_has_id, get_import_job_item, get_import_attempt, get_import_job_summary,
  recompute_import_job_counts_on,
}
use ship_flow_tauri.Storage.Jobs.Attempts.{
  StartImportAttemptInput, FinishImportAttemptInput, start_import_attempt, may_start, may_insert,
  with_attempt, is_running_item, is_running_attempt_of, with_result, settle_attempt, commit,
  running_import_attempt_context, finish_running_import_attempt_on, finish_import_attempt,
}

-- An attempt may be finished only where its item stands in the table, under its job.
pub context_item :
    (s : Store) (attempt_id item_id job_id : Text)
    → running_import_attempt_context s attempt_id ≡ ok (some (item_id, job_id))
    → (item : ImportJobItem) × (find_where (item_has_id item_id) s.items ≡ some item)
      × (item.job_id ≡ job_id)
unfolding running_import_attempt_context get_import_job_item
context_item s attempt_id item_id job_id h =
    let (attempt, e1, h1) = or_fail->>=-eq-ok (get_import_attempt s attempt_id) _ h in
    let (item, e2, h2) =
      or_fail->>=-eq-ok (find_where (item_has_id attempt.job_item_id) s.items) _ h1 in
    let (job, e3, h3) = or_fail->>=-eq-ok (get_import_job_summary s item.job_id) _ h2 in
    (item, ground (arith, h3, e2), ground (arith, h3))

pub start_import_attempt-done :
    (s : Store) (input : StartImportAttemptInput) (now : ℕ) (attempt : ImportAttempt) (t : Store)
    → start_import_attempt s input now ≡ ok (attempt, t)
    → (item : ImportJobItem) × (find_where (item_has_id input.item_id) s.items ≡ some item)
      × (recompute_import_job_counts_on (with_attempt s input now) item.job_id now ≡ ok t)
unfolding start_import_attempt get_import_job_item
start_import_attempt-done s input now attempt t h =
    let (item, found, h1) =
      or_fail->>=-eq-ok (find_where (item_has_id input.item_id) s.items) _ h in
    let (job, _, h2) = or_fail->>=-eq-ok (get_import_job_summary s item.job_id) _ h1 in
    let (_, h3) = guard->>-eq-ok (may_start item job) _ h2 in
    let (_, h4) = guard->>-eq-ok (may_insert s input) _ h3 in
    let (_, h5) = guard->>-eq-ok (not (count (is_running_item input.item_id) s.items == 0)) _ h4 in
    let (u, done, h6) =
      >>=-eq-ok (recompute_import_job_counts_on (with_attempt s input now) item.job_id now) _ h5 in
    let (_, _, h7) = or_fail->>=-eq-ok (get_import_attempt u input.attempt_id) _ h6 in
    (item, found, ground (arith, done, h7))

-- An attempt is settled by a recount of its job after the updates of its row and its item.
pub settle_attempt-done :
    (s : Store) (input : FinishImportAttemptInput) (now : ℕ) (item_id job_id : Text) (t : Store)
    → settle_attempt s input now (some (item_id, job_id)) ≡ ok (some t)
    → recompute_import_job_counts_on (with_result s input now item_id) job_id now ≡ ok t
unfolding settle_attempt
settle_attempt-done s input now item_id job_id t h =
    let (_, h1) = guard->>-eq-ok (blob_exists s input.raw_blob_id) _ h in
    elim (Bool-cases (count (is_running_attempt_of input.attempt_id) s.attempts == 0)) [
      | inl no_attempt ↦ absurd (ground (arith, h1, no_attempt))
      | inr some_attempt ↦ elim (Bool-cases (count (is_running_item item_id) s.items == 0)) [
        | inl no_item ↦ absurd (ground (arith, h1, some_attempt, no_item))
        | inr some_item ↦
            let (u, done, h2) =
              >>=-eq-ok
                (recompute_import_job_counts_on (with_result s input now item_id) job_id now)
                (λ v. ok (some v)) {b = some t} (rw (some_attempt, some_item) at h1) in
            ground (arith, done, h2)
      ]
    ]

pub finish_running-done :
    (s : Store) (input : FinishImportAttemptInput) (now : ℕ) (t : Store)
    → finish_running_import_attempt_on s input now ≡ ok (some t)
    → (item_id : Text) × (job_id : Text) × (running_import_attempt_context s input.attempt_id
        ≡ ok (some (item_id, job_id)))
      × (recompute_import_job_counts_on (with_result s input now item_id) job_id now ≡ ok t)
unfolding finish_running_import_attempt_on
finish_running-done s input now t h =
    let (context, found, h1) = >>=-eq-ok (running_import_attempt_context s input.attempt_id) _ h in
    by_context context found h1
  where
    by_context :
        (context : Option (Text × Text))
        → running_import_attempt_context s input.attempt_id ≡ ok context
        → settle_attempt s input now context ≡ ok (some t)
        → (item_id : Text) × (job_id : Text) × (running_import_attempt_context s input.attempt_id
            ≡ ok (some (item_id, job_id)))
          × (recompute_import_job_counts_on (with_result s input now item_id) job_id now ≡ ok t)
    by_context none found e = absurd (ground (arith, e))
    by_context (some (item_id, job_id)) found e =
        (item_id, job_id, found, settle_attempt-done s input now item_id job_id t e)

-- A finish leaves the store as it was, or is the finish of a running attempt.
pub finish_import_attempt-cases :
    (s : Store) (input : FinishImportAttemptInput) (now : ℕ) (done : Bool) (t : Store)
    → finish_import_attempt s input now ≡ ok (done, t)
    → ((t ≡ s) × (done ≡ false)) ⊎ (finish_running_import_attempt_on s input now ≡ ok (some t))
unfolding finish_import_attempt
finish_import_attempt-cases s input now done t h =
    let (o, settled_to, h1) = >>=-eq-ok (finish_running_import_attempt_on s input now) _ h in
    by_store o settled_to h1
  where
    by_store :
        (o : Option Store)
        → finish_running_import_attempt_on s input now ≡ ok o
        → ◌≡◌ {A = Result (Bool × Store)} (ok (commit s o)) (ok (done, t))
        → ((t ≡ s) × (done ≡ false)) ⊎ (finish_running_import_attempt_on s input now ≡ ok (some t))
    by_store none e same = inl (ground (arith, same))
    by_store (some u) e same = inr (ground (arith, e, same))
