-- ===== src/Storage/Jobs/Attempts/Inserts.antt =====
-- storage.rs: adding the items of one job to the table.
use ship_flow_tauri.Prelude.{
  Text, Bool, true, false, some, List, [], ◌∷◌, ◌++◌, ◌≡◌, refl, subst, ap, ◌∙◌, ◌==◌, text_eq,
  nat_eq, text_beq_iff, not, ◌||◌, count, sum_by, All, Bool-cases, inl, inr, arith, if◌then◌else◌,
}
use ship_flow_tauri.Prelude.Table.{find_where, any, update_where, find_where-append, find_where-new}
use ship_flow_tauri.Storage.Tables.{
  guard->>-eq-ok, ImportJobItem, item_status_eq, source_kind_eq, ok,
}
use ship_flow_tauri.Storage.Jobs.{as_u32, item_has_id, count_import_items_by_status_on}
use ship_flow_tauri.Storage.Jobs.Counts.{
  HasUniqueIds, SameElsewhere, find-update_where, update_where-HasUniqueIds,
  update_where-SameElsewhere,
}
use ship_flow_tauri.Storage.Jobs.Attempts.{
  CreateImportJobItemInput, pending_item, same_source, insert_new_items,
}

append-HasUniqueIds :
    (items : List ImportJobItem) (new : ImportJobItem)
    → any (item_has_id new.item_id) items ≡ false
    → HasUniqueIds items
    → HasUniqueIds (items ++ (new ∷ []))
append-HasUniqueIds items new fresh u = part items u
  where
    part :
        (xs : List ImportJobItem)
        → All (λ (x : ImportJobItem). find_where (item_has_id x.item_id) items ≡ some x) xs
        → All
            (λ (x : ImportJobItem).
              find_where (item_has_id x.item_id) (items ++ (new ∷ [])) ≡ some x)
            (xs ++ (new ∷ []))
    part [] a = (
      find_where-new (item_has_id new.item_id) items new fresh
          ((text_beq_iff new.item_id new.item_id).1 refl),
      tt,
    )
    part (x ∷ xs) a = (find_where-append (item_has_id x.item_id) items x new a.0, part xs a.1)

count-append :
    (q : ImportJobItem → Bool) (items : List ImportJobItem) (new : ImportJobItem)
    → q new ≡ false
    → count q (items ++ (new ∷ [])) ≡ count q items
unfolding sum_by
count-append q [] new h = ground (arith, h)
count-append q (x ∷ xs) new h = ground (arith, count-append q xs new h)

-- What the insertion of items of `job_id`, or an update of them, gives.
pub record IsExtension (job_id : Text) (items items' : List ImportJobItem) : Type 0 where
  pub unique : HasUniqueIds items'
  pub same : SameElsewhere job_id items items'
  pub found :
      (id : Text) (x : ImportJobItem)
      → find_where (item_has_id id) items ≡ some x
      → (x' : ImportJobItem) × (find_where (item_has_id id) items' ≡ some x')
        × (x'.job_id ≡ x.job_id)

pub append-IsExtension :
    (job_id : Text) (items : List ImportJobItem) (new : ImportJobItem)
    → new.job_id ≡ job_id
    → any (item_has_id new.item_id) items ≡ false
    → HasUniqueIds items
    → IsExtension job_id items (items ++ (new ∷ []))
unfolding count_import_items_by_status_on
append-IsExtension job_id items new mine fresh u = record {
  unique = append-HasUniqueIds items new fresh u;
  same = record {
    by_status = λ j status other. ap as_u32 (
        count-append _ items new
          (ground (arith, mine, other, text_beq_iff new.job_id j, text_beq_iff job_id j)));
    total = λ j other.
        count-append _ items new
          (ground (arith, mine, other, text_beq_iff new.job_id j, text_beq_iff job_id j));
  };
  found = λ id x h. (x, find_where-append (item_has_id id) items x new h, refl);
}

pub same-IsExtension :
    (job_id : Text) (items : List ImportJobItem)
    → HasUniqueIds items
    → IsExtension job_id items items
same-IsExtension job_id items u = record {
  unique = u;
  same = record { by_status = λ j status other. refl; total = λ j other. refl };
  found = λ id x h. (x, h, refl);
}

pub trans-IsExtension :
    (job_id : Text) (a b c : List ImportJobItem)
    → IsExtension job_id a b
    → IsExtension job_id b c
    → IsExtension job_id a c
trans-IsExtension job_id a b c ab bc = record {
  unique = bc.unique;
  same = record {
    by_status =
        λ j status other. bc.same.by_status j status other ∙ ab.same.by_status j status other;
    total = λ j other. bc.same.total j other ∙ ab.same.total j other;
  };
  found = λ id x h.
      let (y, hy, ey) = ab.found id x h in let (z, hz, ez) = bc.found id y hy in (z, hz, ez ∙ ey);
}

-- Inserting items of one job, those with a known source skipped, extends the table by that job.
pub insert_new_items-IsExtension :
    (job_id : Text) (items : List ImportJobItem) (inputs : List CreateImportJobItemInput)
    (items' : List ImportJobItem)
    → insert_new_items items inputs ≡ ok items'
    → any (λ (input : CreateImportJobItemInput). not (input.job_id == job_id)) inputs ≡ false
    → HasUniqueIds items
    → IsExtension job_id items items'
unfolding insert_new_items any
insert_new_items-IsExtension job_id items [] items' h mine u =
    let e : items ≡ items' = ground (arith, h) in
    subst (IsExtension job_id items) e (same-IsExtension job_id items u)
insert_new_items-IsExtension job_id items (input ∷ rest) items' h mine u =
    let next =
      if any (same_source input) items then items else items ++ (pending_item input ∷ []) in
    let (fresh, h') =
      guard->>-eq-ok (any (same_source input) items || not (any (item_has_id input.item_id) items))
        _ h in
    let own : input.job_id ≡ job_id = ground (arith, mine, text_beq_iff input.job_id job_id) in
    let step : IsExtension job_id items next = elim (Bool-cases (any (same_source input) items)) [
      | inl known ↦ rw known (same-IsExtension job_id items u)
      | inr new ↦
          rw new (
            append-IsExtension job_id items (pending_item input) own (ground (arith, fresh, new)) u)
    ] in
    trans-IsExtension job_id items next items' step
      (insert_new_items-IsExtension job_id next rest items' h' (ground (arith, mine)) step.unique)

-- An update of rows of one job that keeps ids and jobs.
pub update_where-IsExtension :
    (p : ImportJobItem → Bool) (f : ImportJobItem → ImportJobItem) (job_id : Text)
    (items : List ImportJobItem)
    → ((y : ImportJobItem) → (f y).item_id ≡ y.item_id)
    → ((y : ImportJobItem) → (f y).job_id ≡ y.job_id)
    → All (λ (y : ImportJobItem). p y ≡ true → y.job_id ≡ job_id) items
    → HasUniqueIds items
    → IsExtension job_id items (update_where p f items)
update_where-IsExtension p f job_id items keeps_id keeps_job mine u = record {
  unique = update_where-HasUniqueIds p f keeps_id keeps_job items u;
  same = update_where-SameElsewhere p f keeps_id keeps_job job_id items mine;
  found = λ id x h. (
    if p x then f x else x,
    find-update_where p f id items x keeps_id h,
    ground (arith, keeps_job x),
  );
}
