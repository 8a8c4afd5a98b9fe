-- ===== src/Storage/Jobs/Attempts/Counted.antt =====
-- storage.rs: starting and finishing attempts, and the jobs' counts.
use ship_flow_tauri.Prelude.{
  ℕ, Bool, ◌≡◌, refl, sym, subst, ap, ◌∙◌, text_eq, nat_eq, inl, inr, arith,
}
use ship_flow_tauri.Storage.Tables.{Store, ImportAttempt, ok}
use ship_flow_tauri.Storage.Jobs.Attempts.{
  StartImportAttemptInput, FinishImportAttemptInput, start_import_attempt, started, is_running_item,
  settled, finish_import_attempt,
}
use ship_flow_tauri.Storage.Jobs.Counts.{IsConsistent, change-IsConsistent}
use ship_flow_tauri.Storage.Jobs.Counts.Claims.{row_of_id}
use ship_flow_tauri.Storage.Jobs.Attempts.Outcomes.{
  context_item, start_import_attempt-done, finish_running-done, finish_import_attempt-cases,
}

-- Starting an attempt keeps item ids unique and every job's counts and status those of its items.
pub start_import_attempt-IsConsistent :
    (s : Store) (input : StartImportAttemptInput) (now : ℕ) (attempt : ImportAttempt) (t : Store)
    → start_import_attempt s input now ≡ ok (attempt, t)
    → IsConsistent s
    → IsConsistent t
start_import_attempt-IsConsistent s input now attempt t h c =
    let (item, found, done) = start_import_attempt-done s input now attempt t h in
    change-IsConsistent s _ (is_running_item input.item_id) started item.job_id now t (λ y. refl)
      (λ y. refl) done
      (λ y hy m.
        ap (λ z. z.job_id) (row_of_id s.items item y input.item_id found hy (ground (arith, m))))
      c

-- Finishing an attempt, whatever its result and whether or not the attempt still runs, keeps item
-- ids unique and every job's counts and status those of its items.
pub finish_import_attempt-IsConsistent :
    (s : Store) (input : FinishImportAttemptInput) (now : ℕ) (done : Bool) (t : Store)
    → finish_import_attempt s input now ≡ ok (done, t)
    → IsConsistent s
    → IsConsistent t
finish_import_attempt-IsConsistent s input now done t h c =
    elim (finish_import_attempt-cases s input now done t h) [
      | inl (same, _) ↦ subst IsConsistent (sym same) c
      | inr ran ↦
          let (item_id, job_id, found, counted) = finish_running-done s input now t ran in
          let (item, row, owner) = context_item s input.attempt_id item_id job_id found in
          change-IsConsistent s _ (is_running_item item_id) (settled input) job_id now t (λ y. refl)
            (λ y. refl) counted
            (λ y hy m.
              ap (λ z. z.job_id) (row_of_id s.items item y item_id row hy (ground (arith, m)))
              ∙ owner)
            c
    ]
