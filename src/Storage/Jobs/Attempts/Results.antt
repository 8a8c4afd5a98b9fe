-- ===== src/Storage/Jobs/Attempts/Results.antt =====
-- storage.rs: results of manifest and bag items, which bring items and sheet rows with them.
use ship_flow_tauri.Prelude.{
  ℕ, Text, Bool, false, Option, none, some, List, ◌≡◌, refl, sym, subst, ap, ◌∙◌, ◌==◌, text_eq,
  nat_eq, text_beq_iff, not, All, arith,
}
use ship_flow_tauri.Prelude.Table.{any, update_where, All-map}
use ship_flow_tauri.Storage.Tables.{Store, item_status_eq, Result, ok, >>=-eq-ok, guard->>-eq-ok}
use ship_flow_tauri.Storage.Rows.{UpsertSheetRowInput, upsert_all}
use ship_flow_tauri.Storage.Rows.Batches.{upsert_all-tables}
use ship_flow_tauri.Storage.Jobs.{get_import_attempt, get_import_job_item}
use ship_flow_tauri.Storage.Jobs.Counts.{
  IsConsistent, IsCountedBut, recompute-IsConsistent, counted_but, SameElsewhere-trans,
  update_where-HasUniqueIds, update_where-SameElsewhere, SameElsewhere,
}
use ship_flow_tauri.Storage.Jobs.Counts.Claims.{row_of_id}
use ship_flow_tauri.Storage.Jobs.Attempts.{
  with_ids, with_row_ids, finish_with_rows, finish_bag_import_attempt_with_sheet_rows,
  FinishImportAttemptInput, CreateImportJobItemInput, running_import_attempt_context,
  finish_running_import_attempt_on, with_result, settled, is_running_item, insert_new_items,
  finish_with_items, finish_manifest_import_attempt_with_items, commit,
}
use ship_flow_tauri.Storage.Jobs.Attempts.Outcomes.{finish_running-done}
use ship_flow_tauri.Storage.Jobs.Attempts.Late.{IsLive, context-IsLive}
use ship_flow_tauri.Storage.Jobs.Attempts.Inserts.{
  IsExtension, insert_new_items-IsExtension, update_where-IsExtension,
}

-- A store with the same attempts and jobs whose items extend those of `s` by items of one job.
pub record IsPrepared (s u : Store) (job_id : Text) : Type 0 where
  pub attempts : u.attempts ≡ s.attempts
  pub jobs : u.jobs ≡ s.jobs
  pub items : IsExtension job_id s.items u.items

-- The attempt, and with it the item and the job, is the same after the preparation.
same_context :
    (s u : Store) (attempt_id i j i' j' : Text)
    → IsPrepared s u j
    → IsLive s attempt_id i j
    → IsLive u attempt_id i' j'
    → j' ≡ j
unfolding get_import_attempt get_import_job_item
same_context s u attempt_id i j i' j' prepared live live' =
    let (x, found, owner) = prepared.items.found i live.item live.has_item in
    let attempt : live.attempt ≡ live'.attempt =
      ground (arith, live.has_attempt, live'.has_attempt, prepared.attempts) in
    let item : i ≡ i' = sym live.item_owner ∙ ap (λ a. a.job_item_id) attempt ∙ live'.item_owner in
    let row : live'.item ≡ x = ground (arith, found, live'.has_item, item) in
    sym live'.job_owner ∙ ap (λ r. r.job_id) row ∙ owner ∙ live.job_owner

-- A result after such a preparation keeps the store consistent.
prepared-IsConsistent :
    (s u : Store) (input : FinishImportAttemptInput) (i j : Text) (now : ℕ) (t : Store)
    → running_import_attempt_context s input.attempt_id ≡ ok (some (i, j))
    → IsPrepared s u j
    → finish_running_import_attempt_on u input now ≡ ok (some t)
    → IsConsistent s
    → IsConsistent t
unfolding get_import_job_item
prepared-IsConsistent s u input i j now t context prepared h c =
    let (i', j', context', done) = finish_running-done u input now t h in
    let live' = context-IsLive u input.attempt_id i' j' context' in
    let e : j' ≡ j =
      same_context s u input.attempt_id i j i' j' prepared
        (context-IsLive s input.attempt_id i j context) live' in
    recompute-IsConsistent (with_result u input now i') j' now s.items t done
      (subst (λ k. SameElsewhere k s.items (with_result u input now i').items) (sym e)
        (SameElsewhere-trans j s.items u.items (with_result u input now i').items
          prepared.items.same
          (update_where-SameElsewhere (is_running_item i') (settled input) (λ y. refl) (λ y. refl) j
            u.items
            (All-map _ _ u.items
              (λ y hy m.
                ap (λ z. z.job_id)
                  (row_of_id u.items live'.item y i' live'.has_item hy (ground (arith, m)))
                ∙ live'.job_owner
                ∙ e)
              prepared.items.unique))))
      (update_where-HasUniqueIds (is_running_item i') (settled input) (λ y. refl) (λ y. refl)
        u.items prepared.items.unique)
      (subst (λ jobs. All (IsCountedBut j' s.items) jobs) (sym prepared.jobs)
        (counted_but j' s.items s.jobs c.counted))

commit-IsConsistent :
    (s : Store) (o : Option Store) (done : Bool) (t : Store)
    → ◌≡◌ {A = Result (Bool × Store)} (ok (commit s o)) (ok (done, t))
    → ((u : Store) → o ≡ some u → IsConsistent u)
    → IsConsistent s
    → IsConsistent t
commit-IsConsistent s none done t h each c =
    let e : s ≡ t = ground (arith, h) in subst IsConsistent e c
commit-IsConsistent s (some u) done t h each c =
    let e : u ≡ t = ground (arith, h) in subst IsConsistent e (each u refl)

-- The result of a manifest, which adds the bags that it found as items of the job, keeps item ids
-- unique and every job's counts and status those of its items.
pub finish_manifest-IsConsistent :
    (s : Store) (input : FinishImportAttemptInput) (items : List CreateImportJobItemInput) (now : ℕ)
    (done : Bool) (t : Store)
    → finish_manifest_import_attempt_with_items s input items now ≡ ok (done, t)
    → IsConsistent s
    → IsConsistent t
unfolding finish_manifest_import_attempt_with_items finish_with_items
finish_manifest-IsConsistent s input items now done t h c =
    let (context, found, h1) = >>=-eq-ok (running_import_attempt_context s input.attempt_id) _ h in
    by_context context found h1
  where
    by_context :
        (context : Option (Text × Text))
        → running_import_attempt_context s input.attempt_id ≡ ok context
        → finish_with_items s input items now context ≡ ok (done, t)
        → IsConsistent t
    by_context none found h1 = let e : s ≡ t = ground (arith, h1) in subst IsConsistent e c
    by_context (some (i, j)) found h1 =
        let (mine, h2) =
          guard->>-eq-ok
            (not (any (λ (item : CreateImportJobItemInput). not (item.job_id == j)) items)) _ h1 in
        let (inserted, e, h3) = >>=-eq-ok (insert_new_items s.items items) _ h2 in
        let (o, ran, h4) =
          >>=-eq-ok (finish_running_import_attempt_on (record s { items = inserted }) input now) _
            h3 in
        commit-IsConsistent s o done t h4
          (λ u e'.
            prepared-IsConsistent s (record s { items = inserted }) input i j now u found
              (record {
                attempts = refl;
                jobs = refl;
                items =
                    insert_new_items-IsExtension j s.items items inserted e (ground (arith, mine))
                      c.unique;
              })
              (ran ∙ ap ok e') c)
          c

-- The result of a bag, which writes the rows of its shipments, keeps item ids unique and every job's
-- counts and status those of its items.
pub finish_bag-IsConsistent :
    (s : Store) (input : FinishImportAttemptInput) (item_id : Text)
    (rows : List (UpsertSheetRowInput × Text)) (sheet_row_ids : List Text) (now : ℕ) (done : Bool)
    (t : Store)
    → finish_bag_import_attempt_with_sheet_rows s input item_id rows sheet_row_ids now
      ≡ ok (done, t)
    → IsConsistent s
    → IsConsistent t
unfolding finish_bag_import_attempt_with_sheet_rows finish_with_rows get_import_job_item
finish_bag-IsConsistent s input item_id rows sheet_row_ids now done t h c =
    let (context, found, h1) = >>=-eq-ok (running_import_attempt_context s input.attempt_id) _ h in
    by_context context found h1
  where
    by_context :
        (context : Option (Text × Text))
        → running_import_attempt_context s input.attempt_id ≡ ok context
        → finish_with_rows s input item_id rows sheet_row_ids now context ≡ ok (done, t)
        → IsConsistent t
    by_context none found h1 = let e : s ≡ t = ground (arith, h1) in subst IsConsistent e c
    by_context (some (i, j)) found h1 =
        let (mine, h2) = guard->>-eq-ok (i == item_id) _ h1 in
        let (v, written, h3) = >>=-eq-ok (upsert_all s rows false) _ h2 in
        let (o, ran, h4) =
          >>=-eq-ok
            (finish_running_import_attempt_on (with_row_ids v item_id sheet_row_ids) input now) _
            h3 in
        let (same_items, same_attempts, same_jobs) = upsert_all-tables s rows false v written in
        let live = context-IsLive s input.attempt_id i j found in
        commit-IsConsistent s o done t h4
          (λ u e'.
            prepared-IsConsistent s (with_row_ids v item_id sheet_row_ids) input i j now u found
              (record {
                attempts = same_attempts;
                jobs = same_jobs;
                items =
                    subst
                      (λ items.
                        IsExtension j s.items
                          (update_where (is_running_item item_id) (with_ids sheet_row_ids) items))
                      (sym same_items)
                      (update_where-IsExtension (is_running_item item_id) (with_ids sheet_row_ids) j
                        s.items (λ y. refl) (λ y. refl)
                        (All-map _ _ s.items
                          (λ y hy m.
                            ap (λ z. z.job_id)
                              (row_of_id s.items live.item y i live.has_item hy
                                (ground (arith, m, mine, text_beq_iff i item_id)))
                            ∙ live.job_owner)
                          c.unique)
                        c.unique);
              })
              (ran ∙ ap ok e') c)
          c
