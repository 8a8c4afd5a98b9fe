-- ===== src/ImportEngine/Runs/Grown.antt =====
-- import_engine.rs: the items of a job that wait, over claims and the results of manifests.
use ship_flow_tauri.Prelude.{
  ◌||◌, ℕ, suc, ◌+◌, ◌≤◌, Text, Bool, false, Option, some, none, List, [], ◌∷◌, ◌++◌, ◌≡◌, refl, ap,
  ◌∙◌, ◌==◌, text_eq, not, if◌then◌else◌, count, sum_by, Bool-cases, inl, inr, arith, length,
  nat_eq, All-filter, filter,
}
use ship_flow_tauri.Prelude.Table.{
  any, count-update_where, count-update_where_out, All-always, All-map,
}
use ship_flow_tauri.Prelude.Outcome.{ok, >>=-eq-ok, guard->>-eq-ok}
use ship_flow_tauri.Storage.Tables.{Store, ImportJobItem, item_status_eq}
use ship_flow_tauri.Storage.Jobs.{
  item_of_job, item_has_id, is_claimable, claimed, get_import_job_item, claim_item, first_item,
  recompute_import_job_counts_on, claim_next_pending_import_job_item,
}
use ship_flow_tauri.Storage.Jobs.Counts.{IsConsistent}
use ship_flow_tauri.Storage.Jobs.Counts.Claims.{
  claim_matches, with_claim, row_of_id, All-first_item,
}
use ship_flow_tauri.Storage.Jobs.Attempts.{
  FinishImportAttemptInput, CreateImportJobItemInput, finish_running_import_attempt_on,
  running_import_attempt_context, insert_new_items, pending_item, same_source, finish_with_items,
  finish_manifest_import_attempt_with_items,
}
use ship_flow_tauri.ImportEngine.Runs.{job_size}
use ship_flow_tauri.ImportEngine.Runs.Waiting.{
  waits_in, waiting, IsKept, recompute-items, same-IsKept, commit-IsKept,
}

-- More items of the job, of which the new ones wait.
pub record IsGrown (job_id : Text) (added : ℕ) (s t : Store) : Type 0 where
  pub balance : waiting t job_id + job_size s job_id ≡ waiting s job_id + job_size t job_id
  pub size : job_size t job_id ≤ job_size s job_id + added

pub kept-IsGrown :
    (job_id : Text) (added : ℕ) (s t : Store) → IsKept job_id s t → IsGrown job_id added s t
kept-IsGrown job_id added s t k = record {
  balance = omega (arith, k.waits, k.size);
  size = omega (arith, k.size);
}

count-append :
    (p : ImportJobItem → Bool) (items : List ImportJobItem) (item : ImportJobItem)
    → count p (items ++ (item ∷ [])) ≡ count p items + (if p item then 1 else 0)
unfolding sum_by
count-append p [] item = ground arith
count-append p (x ∷ items) item = omega (arith, count-append p items item)

insert_new_items-grows :
    (job_id : Text) (items : List ImportJobItem) (inputs : List CreateImportJobItemInput)
    (items' : List ImportJobItem)
    → insert_new_items items inputs ≡ ok items'
    → (count (waits_in job_id) items' + count (item_of_job job_id) items
        ≡ count (waits_in job_id) items + count (item_of_job job_id) items')
      × (count (item_of_job job_id) items' ≤ count (item_of_job job_id) items + length inputs)
unfolding insert_new_items
insert_new_items-grows job_id items [] items' h =
    let e : items ≡ items' = ground (arith, h) in
    let waits = ap (count (waits_in job_id)) e in
    let size = ap (count (item_of_job job_id)) e in
    (omega (arith, waits, size), omega (arith, size))
insert_new_items-grows job_id items (input ∷ rest) items' h =
    let (_, h1) =
      guard->>-eq-ok (any (same_source input) items || not (any (item_has_id input.item_id) items))
        _ h in
    elim (Bool-cases (any (same_source input) items)) [
      | inl known ↦
          let (balance, size) = insert_new_items-grows job_id items rest items' (rw known at h1) in
          (balance, omega (arith, size))
      | inr new ↦
          let more = items ++ (pending_item input ∷ []) in
          let (balance, size) = insert_new_items-grows job_id more rest items' (rw new at h1) in
          let waits = count-append (waits_in job_id) items (pending_item input) in
          let sizes = count-append (item_of_job job_id) items (pending_item input) in
          elim (Bool-cases (item_of_job job_id (pending_item input))) [
            | inl mine ↦
                let waits' = rw mine at waits in
                let sizes' = rw mine at sizes in
                (omega (arith, balance, waits', sizes'), omega (arith, size, sizes'))
            | inr other ↦
                let waits' = rw other at waits in
                let sizes' = rw other at sizes in
                (omega (arith, balance, waits', sizes'), omega (arith, size, sizes'))
          ]
    ]

pub finish_manifest-IsGrown :
    (job_id : Text) (s : Store) (input : FinishImportAttemptInput)
    (items : List CreateImportJobItemInput) (now : ℕ) (done : Bool) (t : Store)
    → finish_manifest_import_attempt_with_items s input items now ≡ ok (done, t)
    → IsGrown job_id (length items) s t
unfolding finish_manifest_import_attempt_with_items finish_with_items
finish_manifest-IsGrown job_id s input items now done t h =
    let (context, _, h1) = >>=-eq-ok (running_import_attempt_context s input.attempt_id) _ h in
    by_context context h1
  where
    by_context :
        (context : Option (Text × Text))
        → finish_with_items s input items now context ≡ ok (done, t)
        → IsGrown job_id (length items) s t
    by_context none h1 =
        kept-IsGrown job_id (length items) s t (same-IsKept job_id s t (ground (arith, h1)))
    by_context (some (i, j)) h1 =
        let (_, h2) =
          guard->>-eq-ok
            (not (any (λ (item : CreateImportJobItemInput). not (item.job_id == j)) items)) _ h1 in
        let (inserted, added, h3) = >>=-eq-ok (insert_new_items s.items items) _ h2 in
        let u : Store = record s { items = inserted } in
        let (o, ran, h4) = >>=-eq-ok (finish_running_import_attempt_on u input now) _ h3 in
        let (balance, size) = insert_new_items-grows job_id s.items items inserted added in
        elim (commit-IsKept job_id s u input now o done t ran h4) [
          | inl e ↦ kept-IsGrown job_id (length items) s t (same-IsKept job_id s t e)
          | inr kept ↦ record {
            balance = omega (arith, balance, kept.waits, kept.size);
            size = omega (arith, size, kept.size);
          }
        ]

claim_item-done :
    (s : Store) (job_id : Text) (now : ℕ) (item found : ImportJobItem) (t : Store)
    → claim_item s job_id now (some item) ≡ ok (some found, t)
    → (recompute_import_job_counts_on (with_claim s item) job_id now ≡ ok t)
      × ((count (claim_matches s item) s.items == 0) ≡ false)
unfolding claim_item
claim_item-done s job_id now item found t h =
    elim (Bool-cases (count (claim_matches s item) s.items == 0)) [
      | inl nothing ↦ absurd (ground (arith, h, nothing))
      | inr some_row ↦
          let (t', done, rest) =
            >>=-eq-ok (recompute_import_job_counts_on (with_claim s item) job_id now)
              (λ u. ok (get_import_job_item u item.item_id, u)) {b = (some found, t)}
              (rw some_row at h) in
          (ground (arith, done, rest), some_row)
    ]

-- A claim takes one of the items that wait.
pub claim-waiting :
    (s : Store) (job_id : Text) (now : ℕ) (found : ImportJobItem) (t : Store)
    → claim_next_pending_import_job_item s job_id now ≡ ok (some found, t)
    → IsConsistent s
    → (suc (waiting t job_id) ≤ waiting s job_id) × (job_size t job_id ≡ job_size s job_id)
unfolding claim_next_pending_import_job_item claim_item
claim-waiting s job_id now found t h c =
    by_choice (first_item (filter (is_claimable s job_id) s.items)) refl h
  where
    by_choice :
        (choice : Option ImportJobItem)
        → first_item (filter (is_claimable s job_id) s.items) ≡ choice
        → claim_item s job_id now choice ≡ ok (some found, t)
        → (suc (waiting t job_id) ≤ waiting s job_id) × (job_size t job_id ≡ job_size s job_id)
    by_choice none e h' = absurd (ground (arith, h'))
    by_choice (some item) e h' =
        let (done, some_row) = claim_item-done s job_id now item found t h' in
        let (unique, claimable) =
          All-first_item _ (filter (is_claimable s job_id) s.items) item
            (All-filter _ (is_claimable s job_id) s.items c.unique) e in
        let items = recompute-items (with_claim s item) job_id now t done in
        let taken =
          count-update_where_out (waits_in job_id) (claim_matches s item) claimed s.items (
            All-map _ _ s.items
              (λ y hy m.
                let same : y ≡ item =
                  row_of_id s.items item y item.item_id unique hy (ground (arith, m)) in
                (ground (arith, same, claimable), ground arith))
              c.unique) in
        let kept =
          count-update_where (item_of_job job_id) (claim_matches s item) claimed s.items
            (All-always _ s.items (λ y m. refl)) in
        (
          ground (arith, ap (count (waits_in job_id)) items, taken, some_row),
          ap (count (item_of_job job_id)) items ∙ kept,
        )
