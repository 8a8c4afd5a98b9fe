-- ===== src/Storage/Jobs/Lifecycle/Progress.antt =====
-- storage.rs: whether recovery succeeds.
use ship_flow_tauri.Prelude.{
  ℕ, Text, Bool, true, List, [], ◌∷◌, ◌++◌, ◌≡◌, refl, text_eq, All, All-filter, Bool-cases, inl,
  inr, arith, filter,
}
use ship_flow_tauri.Prelude.Table.{
  any, update_where, sort_by, insert_by, push_unique, contains, All-map,
}
use ship_flow_tauri.Storage.Tables.{
  Store, ImportJob, ImportJobItem, ImportJobItemStatus, ImportAttempt, ok, item_status_eq,
}
use ship_flow_tauri.Storage.Jobs.{job_has_id, has_status, recounted, recompute_import_job_counts_on}
use ship_flow_tauri.Storage.Jobs.Counts.{recount_of}
use ship_flow_tauri.Storage.Jobs.Lifecycle.{
  JobRecoverySummary, recover_interrupted_import_jobs, recovery_summary, recompute_all,
  requeued_store, note_attempts, note_items, attempt_precedes, item_precedes_by_job, is_unfinished,
}

abbrev pub HasJob : List ImportJob → Text → Type 0
HasJob jobs id = any (job_has_id id) jobs ≡ true

recounted-HasJob :
    (items : List ImportJobItem) (job_id id : Text) (now : ℕ) (jobs : List ImportJob)
    → HasJob jobs id
    → HasJob (update_where (job_has_id job_id) (recounted items job_id now) jobs) id
unfolding any update_where recounted
recounted-HasJob items job_id id now [] h = h
recounted-HasJob items job_id id now (job ∷ jobs) h =
    ground (arith, h, recounted-HasJob items job_id id now jobs)

recompute_all_total :
    (s : Store) (ids : List Text) (now : ℕ)
    → All (HasJob s.jobs) ids
    → (t : Store) × (recompute_all s ids now ≡ ok t)
unfolding recompute_all recompute_import_job_counts_on
recompute_all_total s [] now h = (s, refl)
recompute_all_total s (id ∷ ids) now h =
    let (t, e) = recompute_all_total (recount_of s id now) ids now (
      All-map (HasJob s.jobs) (HasJob (recount_of s id now).jobs) ids
        (λ other known. recounted-HasJob s.items id other now s.jobs known) h.1) in
    (t, rw h.0 e)

All-insert_by :
    (P : ImportJobItem → Type 0) (le : ImportJobItem → ImportJobItem → Bool) (x : ImportJobItem)
    (xs : List ImportJobItem)
    → P x
    → All P xs
    → All P (insert_by le x xs)
unfolding insert_by
All-insert_by P le x [] p a = (p, tt)
All-insert_by P le x (y ∷ ys) p a = elim (Bool-cases (le x y)) [
  | inl first ↦ rw first (p, a)
  | inr later ↦ rw later (a.0, All-insert_by P le x ys p a.1)
]

All-sort_by :
    (P : ImportJobItem → Type 0) (le : ImportJobItem → ImportJobItem → Bool)
    (xs : List ImportJobItem)
    → All P xs
    → All P (sort_by le xs)
unfolding sort_by
All-sort_by P le [] a = tt
All-sort_by P le (x ∷ xs) a = All-insert_by P le x (sort_by le xs) a.0 (All-sort_by P le xs a.1)

All-push : (P : Text → Type 0) (x : Text) (xs : List Text) → P x → All P xs → All P (xs ++ (x ∷ []))
All-push P x [] p a = (p, tt)
All-push P x (y ∷ ys) p a = (a.0, All-push P x ys p a.1)

All-push_unique :
    (P : Text → Type 0) (x : Text) (xs : List Text) → P x → All P xs → All P (push_unique x xs)
unfolding push_unique
All-push_unique P x xs p a = elim (Bool-cases (contains x xs)) [
  | inl old ↦ rw old a
  | inr new ↦ rw new (All-push P x xs p a)
]

note_attempts_jobs :
    (P : Text → Type 0) (attempts : List ImportAttempt) (summary : JobRecoverySummary)
    → All P summary.recovered_job_ids
    → All P (note_attempts summary attempts).recovered_job_ids
unfolding note_attempts
note_attempts_jobs P [] summary known = known
note_attempts_jobs P (attempt ∷ rest) summary known = note_attempts_jobs P rest _ known

note_items_jobs :
    (P : Text → Type 0) (items : List ImportJobItem) (summary : JobRecoverySummary)
    → All P summary.recovered_job_ids
    → All (λ (item : ImportJobItem). P item.job_id) items
    → All P (note_items summary items).recovered_job_ids
unfolding note_items
note_items_jobs P [] summary known a = known
note_items_jobs P (item ∷ rest) summary known a =
    note_items_jobs P rest _ (All-push_unique P item.job_id summary.recovered_job_ids a.0 known) a.1

-- Where every item's job is in its table, as the foreign key has it, recovery succeeds.
pub recover_total :
    (s : Store) (now : ℕ)
    → All (λ (item : ImportJobItem). HasJob s.jobs item.job_id) s.items
    → (summary : JobRecoverySummary) × (t : Store) × (recover_interrupted_import_jobs s now
        ≡ ok (summary, t))
unfolding recover_interrupted_import_jobs recovery_summary
recover_total s now h =
    let running = filter (has_status ImportJobItemStatus.running) s.items in
    let own =
      All-sort_by (λ (item : ImportJobItem). HasJob s.jobs item.job_id) item_precedes_by_job running
        (All-map _ _ running (λ item known. known.0)
          (All-filter (λ (item : ImportJobItem). HasJob s.jobs item.job_id)
            (has_status ImportJobItemStatus.running) s.items h)) in
    let attempts = sort_by attempt_precedes (filter is_unfinished s.attempts) in
    let none_yet : JobRecoverySummary = record {
      recovered_job_ids = [];
      recovered_item_ids = [];
      interrupted_attempt_ids = [];
    } in
    let ids =
      note_items_jobs (HasJob s.jobs) (sort_by item_precedes_by_job running)
        (note_attempts none_yet attempts) (note_attempts_jobs (HasJob s.jobs) attempts none_yet tt)
        own in
    let (t, e) =
      recompute_all_total (requeued_store s now) (recovery_summary s).recovered_job_ids now ids in
    (recovery_summary s, t, rw e refl)
