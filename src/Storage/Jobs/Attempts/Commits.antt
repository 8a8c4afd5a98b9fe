-- ===== src/Storage/Jobs/Attempts/Commits.antt =====
-- storage.rs: what the results of manifest and bag items commit.
use ship_flow_tauri.Prelude.{
  ℕ, Text, Bool, false, Option, none, some, List, ◌≡◌, refl, sym, subst, ◌∙◌, ◌==◌, text_eq, not,
  inl, inr, ◌⊎◌, arith,
}
use ship_flow_tauri.Prelude.Table.{any}
use ship_flow_tauri.Storage.Tables.{Store, Result, ok, >>=-eq-ok, guard->>-eq-ok}
use ship_flow_tauri.Storage.Rows.{UpsertSheetRowInput, upsert_all}
use ship_flow_tauri.Storage.Rows.Batches.{upsert_all-tables}
use ship_flow_tauri.Storage.Jobs.Attempts.{
  FinishImportAttemptInput, CreateImportJobItemInput, running_import_attempt_context,
  finish_running_import_attempt_on, insert_new_items, finish_with_items,
  finish_manifest_import_attempt_with_items, finish_with_rows,
  finish_bag_import_attempt_with_sheet_rows, commit, with_row_ids, with_ids, is_running_item,
}
use ship_flow_tauri.Storage.Jobs.Attempts.Kept.{
  Keeps, KeepsAttempts, KeepsItems, KeepsJobs, same-KeepsAttempts, same-KeepsJobs,
  update-KeepsItems, insert_new_items-KeepsItems,
}

-- Nothing is committed, or the finish of a running attempt in a store with the same jobs, where no row
-- of the import tables was lost.
abbrev pub IsCommit : Store → FinishImportAttemptInput → ℕ → Bool → Store → Type 0
IsCommit s input now done t =
    ((t ≡ s) × (done ≡ false))
    ⊎ ((u : Store) × (u.jobs ≡ s.jobs)
        × Keeps s u
        × (finish_running_import_attempt_on u input now ≡ ok (some t)))

commit-IsCommit :
    (s u : Store) (input : FinishImportAttemptInput) (now : ℕ) (o : Option Store) (done : Bool)
    (t : Store)
    → u.jobs ≡ s.jobs
    → Keeps s u
    → finish_running_import_attempt_on u input now ≡ ok o
    → ◌≡◌ {A = Result (Bool × Store)} (ok (commit s o)) (ok (done, t))
    → IsCommit s input now done t
commit-IsCommit s u input now none done t jobs kept ran h =
    inl (ground (arith, h), ground (arith, h))
commit-IsCommit s u input now (some v) done t jobs kept ran h =
    inr (u, jobs, kept, ran ∙ ground (arith, h))

pub finish_manifest-IsCommit :
    (s : Store) (input : FinishImportAttemptInput) (items : List CreateImportJobItemInput) (now : ℕ)
    (done : Bool) (t : Store)
    → finish_manifest_import_attempt_with_items s input items now ≡ ok (done, t)
    → IsCommit s input now done t
unfolding finish_manifest_import_attempt_with_items finish_with_items
finish_manifest-IsCommit s input items now done t h =
    let (context, _, h1) = >>=-eq-ok (running_import_attempt_context s input.attempt_id) _ h in
    by_context context h1
  where
    by_context :
        (context : Option (Text × Text))
        → finish_with_items s input items now context ≡ ok (done, t)
        → IsCommit s input now done t
    by_context none h1 = inl (ground (arith, h1), ground (arith, h1))
    by_context (some (i, j)) h1 =
        let (_, h2) =
          guard->>-eq-ok
            (not (any (λ (item : CreateImportJobItemInput). not (item.job_id == j)) items)) _ h1 in
        let (inserted, added, h3) = >>=-eq-ok (insert_new_items s.items items) _ h2 in
        let (o, ran, h4) =
          >>=-eq-ok (finish_running_import_attempt_on (record s { items = inserted }) input now) _
            h3 in
        commit-IsCommit s (record s { items = inserted }) input now o done t refl
          (record {
            attempts = same-KeepsAttempts s.attempts;
            items = insert_new_items-KeepsItems s.items items inserted added;
            jobs = same-KeepsJobs s.jobs;
          })
          ran h4

pub finish_bag-IsCommit :
    (s : Store) (input : FinishImportAttemptInput) (item_id : Text)
    (rows : List (UpsertSheetRowInput × Text)) (sheet_row_ids : List Text) (now : ℕ) (done : Bool)
    (t : Store)
    → finish_bag_import_attempt_with_sheet_rows s input item_id rows sheet_row_ids now
      ≡ ok (done, t)
    → IsCommit s input now done t
unfolding finish_bag_import_attempt_with_sheet_rows finish_with_rows
finish_bag-IsCommit s input item_id rows sheet_row_ids now done t h =
    let (context, _, h1) = >>=-eq-ok (running_import_attempt_context s input.attempt_id) _ h in
    by_context context h1
  where
    by_context :
        (context : Option (Text × Text))
        → finish_with_rows s input item_id rows sheet_row_ids now context ≡ ok (done, t)
        → IsCommit s input now done t
    by_context none h1 = inl (ground (arith, h1), ground (arith, h1))
    by_context (some (i, j)) h1 =
        let (_, h2) = guard->>-eq-ok (i == item_id) _ h1 in
        let (v, written, h3) = >>=-eq-ok (upsert_all s rows false) _ h2 in
        let (o, ran, h4) =
          >>=-eq-ok
            (finish_running_import_attempt_on (with_row_ids v item_id sheet_row_ids) input now) _
            h3 in
        let (same_items, same_attempts, same_jobs) = upsert_all-tables s rows false v written in
        commit-IsCommit s (with_row_ids v item_id sheet_row_ids) input now o done t same_jobs
          (record {
            attempts =
                subst (KeepsAttempts s.attempts) (sym same_attempts)
                  (same-KeepsAttempts s.attempts);
            items =
                subst (λ xs. KeepsItems xs (with_row_ids v item_id sheet_row_ids).items) same_items
                  (update-KeepsItems (is_running_item item_id) (with_ids sheet_row_ids) v.items
                    (λ y. refl) (λ y. refl));
            jobs = subst (KeepsJobs s.jobs) (sym same_jobs) (same-KeepsJobs s.jobs);
          })
          ran h4
