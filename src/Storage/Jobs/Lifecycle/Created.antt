-- ===== src/Storage/Jobs/Lifecycle/Created.antt =====
-- storage.rs: creating a job with its items, or creating it anew, and the jobs' counts.
use ship_flow_tauri.Prelude.{
  ℕ, Text, Bool, true, false, some, List, [], ◌∷◌, ◌++◌, ◌≡◌, refl, sym, subst, ap, ◌∙◌, ◌==◌,
  text_eq, text_beq_iff, nat_eq, not, ◌||◌, count, sum_by, length, All, map, append-nil,
  append_assoc, Bool-cases, inl, inr, arith,
}
use ship_flow_tauri.Prelude.Table.{
  find_where, any, update_where, delete_where, contains, find_where-delete_where,
}
use ship_flow_tauri.Storage.Tables.{
  Store, ImportJob, ImportJobItem, item_status_eq, ok, >>=-eq-ok, or_fail->>=-eq-ok, guard->>-eq-ok,
}
use ship_flow_tauri.Storage.Jobs.{
  as_u32, job_has_id, item_has_id, item_of_job, get_import_job_summary,
  recompute_import_job_counts_on, count_import_items_by_status_on,
}
use ship_flow_tauri.Storage.Jobs.Counts.{
  IsConsistent, IsCountedBut, HasUniqueIds, SameElsewhere, SameElsewhere-trans,
  recompute-IsConsistent, recompute-eq, counted_but,
}
use ship_flow_tauri.Storage.Jobs.Attempts.{CreateImportJobItemInput, pending_item, same_source}
use ship_flow_tauri.Storage.Jobs.Attempts.Inserts.{
  IsExtension, append-IsExtension, same-IsExtension, trans-IsExtension,
}
use ship_flow_tauri.Storage.Jobs.Lifecycle.{
  CreateImportJobInput, new_job, upsert_job, insert_items, cleared_store,
  create_import_job_with_items,
}

count-delete_where :
    (q p : ImportJobItem → Bool) (items : List ImportJobItem)
    → ((y : ImportJobItem) → p y ≡ true → q y ≡ false)
    → count q (delete_where p items) ≡ count q items
unfolding delete_where sum_by
count-delete_where q p [] h = refl
count-delete_where q p (x ∷ xs) h = ground (arith, h x, count-delete_where q p xs h)

delete_items-SameElsewhere :
    (job_id : Text) (items : List ImportJobItem)
    → SameElsewhere job_id items (delete_where (item_of_job job_id) items)
unfolding count_import_items_by_status_on
delete_items-SameElsewhere job_id items = record {
  by_status = λ j status other. ap as_u32 (
      count-delete_where _ (item_of_job job_id) items (λ y e. ground (
        arith,
        e,
        other,
        text_beq_iff y.job_id job_id,
        text_beq_iff y.job_id j,
        text_beq_iff job_id j,
      )));
  total = λ j other. count-delete_where _ (item_of_job job_id) items (λ y e. ground (
    arith,
    e,
    other,
    text_beq_iff y.job_id job_id,
    text_beq_iff y.job_id j,
    text_beq_iff job_id j,
  ));
}

delete_items-HasUniqueIds :
    (p : ImportJobItem → Bool) (items : List ImportJobItem)
    → HasUniqueIds items
    → HasUniqueIds (delete_where p items)
unfolding delete_where
delete_items-HasUniqueIds p items u = part items u
  where
    part :
        (xs : List ImportJobItem)
        → All (λ (x : ImportJobItem). find_where (item_has_id x.item_id) items ≡ some x) xs
        → All
            (λ (x : ImportJobItem).
              find_where (item_has_id x.item_id) (delete_where p items) ≡ some x)
            (delete_where p xs)
    part [] a = tt
    part (x ∷ xs) a = elim (Bool-cases (p x)) [
      | inl gone ↦ rw gone (part xs a.1)
      | inr stays ↦
          rw stays
            (find_where-delete_where p (item_has_id x.item_id) items x a.0 stays, part xs a.1)
    ]

insert_items-IsExtension :
    (job_id : Text) (items : List ImportJobItem) (inputs : List CreateImportJobItemInput)
    (items' : List ImportJobItem)
    → insert_items items inputs ≡ ok items'
    → any (λ (input : CreateImportJobItemInput). not (input.job_id == job_id)) inputs ≡ false
    → HasUniqueIds items
    → IsExtension job_id items items'
unfolding insert_items any
insert_items-IsExtension job_id items [] items' h mine u =
    let e : items ≡ items' = ground (arith, h) in
    subst (IsExtension job_id items) e (same-IsExtension job_id items u)
insert_items-IsExtension job_id items (input ∷ rest) items' h mine u =
    let next = items ++ (pending_item input ∷ []) in
    let (fresh, h') =
      guard->>-eq-ok (not (any (item_has_id input.item_id) items || any (same_source input) items))
        _ h in
    let own : input.job_id ≡ job_id = ground (arith, mine, text_beq_iff input.job_id job_id) in
    let step = append-IsExtension job_id items (pending_item input) own (ground (arith, fresh)) u in
    trans-IsExtension job_id items next items' step
      (insert_items-IsExtension job_id next rest items' h' (ground (arith, mine)) step.unique)

new_job-IsCountedBut :
    (input : CreateImportJobInput) (total : ℕ) (items : List ImportJobItem)
    → IsCountedBut input.job_id items (new_job input total)
new_job-IsCountedBut input total items other =
    absurd (ground (arith, other, text_beq_iff input.job_id input.job_id))

All-snoc :
    (P : ImportJob → Type 0) (jobs : List ImportJob) (new : ImportJob)
    → All P jobs
    → P new
    → All P (jobs ++ (new ∷ []))
All-snoc P [] new a p = (p, tt)
All-snoc P (x ∷ xs) new a p = (a.0, All-snoc P xs new a.1 p)

update_job-IsCountedBut :
    (input : CreateImportJobInput) (total : ℕ) (items : List ImportJobItem) (jobs : List ImportJob)
    → All (IsCountedBut input.job_id items) jobs
    → All
        (IsCountedBut input.job_id items)
        (update_where (job_has_id input.job_id) (λ _. new_job input total) jobs)
unfolding update_where
update_job-IsCountedBut input total items [] c = tt
update_job-IsCountedBut input total items (job ∷ jobs) c = (
  elim (Bool-cases (job_has_id input.job_id job)) [
    | inl mine ↦ rw mine (new_job-IsCountedBut input total items)
    | inr other ↦ rw other c.0
  ],
  update_job-IsCountedBut input total items jobs c.1,
)

upsert_job-IsCountedBut :
    (input : CreateImportJobInput) (total : ℕ) (items : List ImportJobItem) (jobs : List ImportJob)
    → All (IsCountedBut input.job_id items) jobs
    → All (IsCountedBut input.job_id items) (upsert_job input total jobs)
unfolding upsert_job
upsert_job-IsCountedBut input total items jobs c =
    elim (Bool-cases (any (job_has_id input.job_id) jobs)) [
      | inl old ↦ rw old (update_job-IsCountedBut input total items jobs c)
      | inr new ↦ rw new (
          All-snoc (IsCountedBut input.job_id items) jobs (new_job input total) c
            (new_job-IsCountedBut input total items))
    ]

-- Creating a job with its items keeps item ids unique and every job's counts and status those of its
-- items, also where the job exists and its old items are replaced.
pub create-IsConsistent :
    (s : Store) (input : CreateImportJobInput) (items : List CreateImportJobItemInput) (now : ℕ)
    (job : ImportJob) (t : Store)
    → create_import_job_with_items s input items now ≡ ok (job, t)
    → IsConsistent s
    → IsConsistent t
unfolding create_import_job_with_items
create-IsConsistent s input items now job t h c =
    let old = delete_where (item_of_job input.job_id) s.items in
    let (mine, h1) =
      guard->>-eq-ok
        (not (any (λ (item : CreateImportJobItemInput). not (item.job_id == input.job_id)) items)) _
        h in
    let (_, h2) = guard->>-eq-ok (contains input.sheet_id s.sheet_ids) _ h1 in
    let (inserted, e, h3) = >>=-eq-ok (insert_items old items) _ h2 in
    let filled = record (cleared_store s input items) { items = inserted } in
    let (u, done, h4) = >>=-eq-ok (recompute_import_job_counts_on filled input.job_id now) _ h3 in
    let (_, _, h5) = or_fail->>=-eq-ok (get_import_job_summary u input.job_id) _ h4 in
    let same : u ≡ t = ground (arith, h5) in
    let extension =
      insert_items-IsExtension input.job_id old items inserted e (ground (arith, mine))
        (delete_items-HasUniqueIds (item_of_job input.job_id) s.items c.unique) in
    subst IsConsistent same (
      recompute-IsConsistent filled input.job_id now s.items u done
        (SameElsewhere-trans input.job_id s.items old inserted
          (delete_items-SameElsewhere input.job_id s.items) extension.same)
        extension.unique
        (upsert_job-IsCountedBut input (as_u32 (length items)) s.items s.jobs
          (counted_but input.job_id s.items s.jobs c.counted)))

insert_items-eq :
    (items : List ImportJobItem) (inputs : List CreateImportJobItemInput)
    (items' : List ImportJobItem)
    → insert_items items inputs ≡ ok items'
    → items' ≡ items ++ map pending_item inputs
unfolding insert_items
insert_items-eq items [] items' h =
    let e : items ≡ items' = ground (arith, h) in sym e ∙ sym (append-nil items)
insert_items-eq items (input ∷ rest) items' h =
    let next = items ++ (pending_item input ∷ []) in
    let (_, h') =
      guard->>-eq-ok (not (any (item_has_id input.item_id) items || any (same_source input) items))
        _ h in
    insert_items-eq next rest items' h'
    ∙ append_assoc items (pending_item input ∷ []) (map pending_item rest)

-- The items of a job that was created are those given, behind the items of the other jobs.
pub create-items :
    (s : Store) (input : CreateImportJobInput) (items : List CreateImportJobItemInput) (now : ℕ)
    (job : ImportJob) (t : Store)
    → create_import_job_with_items s input items now ≡ ok (job, t)
    → t.items ≡ delete_where (item_of_job input.job_id) s.items ++ map pending_item items
unfolding create_import_job_with_items
create-items s input items now job t h =
    let old = delete_where (item_of_job input.job_id) s.items in
    let (_, h1) =
      guard->>-eq-ok
        (not (any (λ (item : CreateImportJobItemInput). not (item.job_id == input.job_id)) items)) _
        h in
    let (_, h2) = guard->>-eq-ok (contains input.sheet_id s.sheet_ids) _ h1 in
    let (inserted, e, h3) = >>=-eq-ok (insert_items old items) _ h2 in
    let filled = record (cleared_store s input items) { items = inserted } in
    let (u, done, h4) = >>=-eq-ok (recompute_import_job_counts_on filled input.job_id now) _ h3 in
    let (_, _, h5) = or_fail->>=-eq-ok (get_import_job_summary u input.job_id) _ h4 in
    let same : u ≡ t = ground (arith, h5) in
    ap (λ (v : Store). v.items) (sym same ∙ recompute-eq filled input.job_id now u done)
    ∙ insert_items-eq old items inserted e
