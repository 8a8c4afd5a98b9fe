-- ===== src/Storage/Jobs/Attempts/Kept.antt =====
-- storage.rs: what the operations on import jobs leave of the rows that are there: settled attempts,
-- the job of each item, and the jobs themselves.
use ship_flow_tauri.Prelude.{
  ℕ, Text, Bool, true, false, some, List, [], ◌∷◌, ◌++◌, ◌≡◌, refl, sym, subst, ◌∙◌, text_eq, not,
  ◌||◌, Bool-cases, inl, inr, arith, if◌then◌else◌,
}
use ship_flow_tauri.Prelude.Table.{
  find_where, any, update_where, find_where-append, find_where-update_where,
}
use ship_flow_tauri.Storage.Tables.{
  Store, ImportJob, ImportJobItem, ImportAttempt, ok, guard->>-eq-ok, is_running_attempt,
}
use ship_flow_tauri.Storage.Jobs.{
  attempt_has_id, item_has_id, job_has_id, recounted, recompute_import_job_counts_on,
}
use ship_flow_tauri.Storage.Jobs.Counts.{recompute-eq}
use ship_flow_tauri.Storage.Jobs.Attempts.{
  CreateImportJobItemInput, pending_item, same_source, insert_new_items,
}

abbrev pub KeepsAttempts : List ImportAttempt → List ImportAttempt → Type 0
KeepsAttempts xs ys =
    (id : Text) (x : ImportAttempt)
    → find_where (attempt_has_id id) xs ≡ some x
    → is_running_attempt x.status ≡ false
    → find_where (attempt_has_id id) ys ≡ some x

abbrev pub KeepsItems : List ImportJobItem → List ImportJobItem → Type 0
KeepsItems xs ys =
    (id : Text) (x : ImportJobItem)
    → find_where (item_has_id id) xs ≡ some x
    → (y : ImportJobItem) × (find_where (item_has_id id) ys ≡ some y) × (y.job_id ≡ x.job_id)

abbrev pub KeepsJobs : List ImportJob → List ImportJob → Type 0
KeepsJobs xs ys =
    (id : Text) (x : ImportJob)
    → find_where (job_has_id id) xs ≡ some x
    → (y : ImportJob) × (find_where (job_has_id id) ys ≡ some y)

-- A later store has the settled attempts as they were, and the items and jobs, which may have changed.
pub record Keeps (s t : Store) : Type 0 where
  pub attempts : KeepsAttempts s.attempts t.attempts
  pub items : KeepsItems s.items t.items
  pub jobs : KeepsJobs s.jobs t.jobs

pub same-KeepsAttempts : (xs : List ImportAttempt) → KeepsAttempts xs xs
same-KeepsAttempts xs id x h e = h

pub same-KeepsItems : (xs : List ImportJobItem) → KeepsItems xs xs
same-KeepsItems xs id x h = (x, h, refl)

pub same-KeepsJobs : (xs : List ImportJob) → KeepsJobs xs xs
same-KeepsJobs xs id x h = (x, h)

pub same-Keeps : (s t : Store) → t ≡ s → Keeps s t
same-Keeps s t e = subst (Keeps s) (sym e) (record {
  attempts = same-KeepsAttempts s.attempts;
  items = same-KeepsItems s.items;
  jobs = same-KeepsJobs s.jobs;
})

pub trans-KeepsItems :
    (xs ys zs : List ImportJobItem) → KeepsItems xs ys → KeepsItems ys zs → KeepsItems xs zs
trans-KeepsItems xs ys zs a b id x h =
    let (y, hy, ey) = a id x h in let (z, hz, ez) = b id y hy in (z, hz, ez ∙ ey)

pub trans-Keeps : (s t u : Store) → Keeps s t → Keeps t u → Keeps s u
trans-Keeps s t u a b = record {
  attempts = λ id x h e. b.attempts id x (a.attempts id x h e) e;
  items = trans-KeepsItems s.items t.items u.items a.items b.items;
  jobs = λ id x h. let (y, hy) = a.jobs id x h in b.jobs id y hy;
}

-- An update of attempts that run.
pub update-KeepsAttempts :
    (p : ImportAttempt → Bool) (f : ImportAttempt → ImportAttempt) (xs : List ImportAttempt)
    → ((y : ImportAttempt) → (f y).attempt_id ≡ y.attempt_id)
    → ((y : ImportAttempt) → p y ≡ true → is_running_attempt y.status ≡ true)
    → KeepsAttempts xs (update_where p f xs)
update-KeepsAttempts p f xs keeps runs id x h e =
    let kept =
      find_where-update_where (attempt_has_id id) p f xs x (λ y. ground (arith, keeps y)) h in
    elim (Bool-cases (p x)) [
      | inl hit ↦ absurd (ground (arith, runs x hit, e))
      | inr miss ↦ ground (arith, kept, miss)
    ]

pub append-KeepsAttempts :
    (xs : List ImportAttempt) (new : ImportAttempt) → KeepsAttempts xs (xs ++ (new ∷ []))
append-KeepsAttempts xs new id x h e = find_where-append (attempt_has_id id) xs x new h

pub update-KeepsItems :
    (p : ImportJobItem → Bool) (f : ImportJobItem → ImportJobItem) (xs : List ImportJobItem)
    → ((y : ImportJobItem) → (f y).item_id ≡ y.item_id)
    → ((y : ImportJobItem) → (f y).job_id ≡ y.job_id)
    → KeepsItems xs (update_where p f xs)
update-KeepsItems p f xs keeps keeps_job id x h = (
  if p x then f x else x,
  find_where-update_where (item_has_id id) p f xs x (λ y. ground (arith, keeps y)) h,
  ground (arith, keeps_job x),
)

pub update-KeepsJobs :
    (p : ImportJob → Bool) (f : ImportJob → ImportJob) (xs : List ImportJob)
    → ((y : ImportJob) → (f y).job_id ≡ y.job_id)
    → KeepsJobs xs (update_where p f xs)
update-KeepsJobs p f xs keeps id x h = (
  if p x then f x else x,
  find_where-update_where (job_has_id id) p f xs x (λ y. ground (arith, keeps y)) h,
)

pub recompute-Keeps :
    (s : Store) (job_id : Text) (now : ℕ) (t : Store)
    → recompute_import_job_counts_on s job_id now ≡ ok t
    → Keeps s t
unfolding recounted
recompute-Keeps s job_id now t done =
    subst (Keeps s) (sym (recompute-eq s job_id now t done)) (record {
      attempts = same-KeepsAttempts s.attempts;
      items = same-KeepsItems s.items;
      jobs = update-KeepsJobs (job_has_id job_id) (recounted s.items job_id now) s.jobs (λ y. refl);
    })

pub insert_new_items-KeepsItems :
    (items : List ImportJobItem) (inputs : List CreateImportJobItemInput)
    (items' : List ImportJobItem)
    → insert_new_items items inputs ≡ ok items'
    → KeepsItems items items'
unfolding insert_new_items
insert_new_items-KeepsItems items [] items' h =
    let e : items ≡ items' = ground (arith, h) in subst (KeepsItems items) e (same-KeepsItems items)
insert_new_items-KeepsItems items (input ∷ rest) items' h =
    let next =
      if any (same_source input) items then items else items ++ (pending_item input ∷ []) in
    let (_, h') =
      guard->>-eq-ok (any (same_source input) items || not (any (item_has_id input.item_id) items))
        _ h in
    let step : KeepsItems items next = elim (Bool-cases (any (same_source input) items)) [
      | inl known ↦ rw known (same-KeepsItems items)
      | inr new ↦ rw new (λ id x found.
          (x, find_where-append (item_has_id id) items x (pending_item input) found, refl))
    ] in
    trans-KeepsItems items next items' step (insert_new_items-KeepsItems next rest items' h')
