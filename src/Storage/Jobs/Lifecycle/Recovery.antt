-- ===== src/Storage/Jobs/Lifecycle/Recovery.antt =====
-- storage.rs: recovery after a shutdown: what is left running, and the jobs' counts.
use ship_flow_tauri.Prelude.{
  ℕ, ◌+◌, Text, Bool, false, List, [], ◌∷◌, ◌≡◌, refl, sym, subst, ap, ◌∙◌, text_eq, nat_eq, ◌&&◌,
  not, count, sum_by, All, arith, is_some,
}
use ship_flow_tauri.Prelude.Table.{
  update_where, All-map, All-always, All-updated, count-update_where,
}
use ship_flow_tauri.Storage.Tables.{
  Store, ImportJob, ImportJobItem, ImportAttempt, ImportJobItemStatus, ok, item_status_eq,
  is_running_attempt, >>=-eq-ok,
}
use ship_flow_tauri.Storage.Jobs.{
  as_u32, item_of_job, has_status, count_import_items_by_status_on, recompute_import_job_counts_on,
}
use ship_flow_tauri.Storage.Jobs.Counts.{
  IsConsistent, IsCounted, recompute-IsConsistent, counted_but, recompute-eq,
  update_where-HasUniqueIds,
}
use ship_flow_tauri.Storage.Jobs.Lifecycle.{
  JobRecoverySummary, recovery_summary, requeued_store, recover_interrupted_import_jobs,
  recompute_all, requeued, interrupted_attempt, is_unfinished,
}

abbrev is_running : ImportJobItem → Bool
is_running item = has_status ImportJobItemStatus.running item

requeued_counts :
    (items : List ImportJobItem) (j : Text)
    → count
          (λ item. item_of_job j item && has_status ImportJobItemStatus.pending item)
          (update_where is_running requeued items)
        + count
            (λ item. item_of_job j item && has_status ImportJobItemStatus.running item)
            (update_where is_running requeued items)
      ≡ count (λ item. item_of_job j item && has_status ImportJobItemStatus.pending item) items
        + count (λ item. item_of_job j item && has_status ImportJobItemStatus.running item) items
unfolding update_where sum_by
requeued_counts [] j = refl
requeued_counts (x ∷ xs) j = ground (arith, requeued_counts xs j)

requeued-IsCounted :
    (items : List ImportJobItem) (job : ImportJob)
    → IsCounted items job
    → IsCounted (update_where is_running requeued items) job
unfolding count_import_items_by_status_on
requeued-IsCounted items job c = record {
  success =
      c.success
      ∙ ap as_u32 (
          sym (
            count-update_where _ is_running requeued items
              (All-always _ items (λ y m. ground (arith, m)))));
  failed =
      c.failed
      ∙ ap as_u32 (
          sym (
            count-update_where _ is_running requeued items
              (All-always _ items (λ y m. ground (arith, m)))));
  pending = omega (arith, c.pending, requeued_counts items job.job_id);
  total =
      c.total
      ∙ sym (count-update_where _ is_running requeued items (All-always _ items (λ y m. refl)));
  derived = c.derived;
}

recompute_all-IsConsistent :
    (s : Store) (ids : List Text) (now : ℕ) (t : Store)
    → recompute_all s ids now ≡ ok t
    → IsConsistent s
    → IsConsistent t
unfolding recompute_all
recompute_all-IsConsistent s [] now t h c =
    let e : s ≡ t = ground (arith, h) in subst IsConsistent e c
recompute_all-IsConsistent s (id ∷ ids) now t h c =
    let (u, done, h') = >>=-eq-ok (recompute_import_job_counts_on s id now) _ h in
    recompute_all-IsConsistent u ids now t h' (
      recompute-IsConsistent s id now s.items u done
        (record { by_status = λ j status other. refl; total = λ j other. refl }) c.unique
        (counted_but id s.items s.jobs c.counted))

-- A recount changes neither the items nor the attempts.
recompute_all-rows :
    (s : Store) (ids : List Text) (now : ℕ) (t : Store)
    → recompute_all s ids now ≡ ok t
    → (t.items ≡ s.items) × (t.attempts ≡ s.attempts)
unfolding recompute_all
recompute_all-rows s [] now t h = ground (arith, h)
recompute_all-rows s (id ∷ ids) now t h =
    let (u, done, h') = >>=-eq-ok (recompute_import_job_counts_on s id now) _ h in
    ground (arith, recompute_all-rows u ids now t h', recompute-eq s id now u done)

-- Recovery requeues the rows and then recounts the jobs of its summary.
pub recover-done :
    (s : Store) (now : ℕ) (summary : JobRecoverySummary) (t : Store)
    → recover_interrupted_import_jobs s now ≡ ok (summary, t)
    → recompute_all (requeued_store s now) (recovery_summary s).recovered_job_ids now ≡ ok t
unfolding recover_interrupted_import_jobs
recover-done s now summary t h =
    let (u, done, h1) =
      >>=-eq-ok (recompute_all (requeued_store s now) (recovery_summary s).recovered_job_ids now) _
        h in
    ground (arith, done, h1)

-- Recovery keeps item ids unique and every job's counts and status those of its items.
pub recover-IsConsistent :
    (s : Store) (now : ℕ) (summary : JobRecoverySummary) (t : Store)
    → recover_interrupted_import_jobs s now ≡ ok (summary, t)
    → IsConsistent s
    → IsConsistent t
recover-IsConsistent s now summary t h c =
    recompute_all-IsConsistent (requeued_store s now) (recovery_summary s).recovered_job_ids now t
      (recover-done s now summary t h)
      (record {
        unique =
            update_where-HasUniqueIds is_running requeued (λ y. refl) (λ y. refl) s.items c.unique;
        counted = All-map _ _ s.jobs (λ job k. requeued-IsCounted s.items job k) c.counted;
      })

-- After recovery no item is running and no attempt is running without an end.
pub recover_clears :
    (s : Store) (now : ℕ) (summary : JobRecoverySummary) (t : Store)
    → recover_interrupted_import_jobs s now ≡ ok (summary, t)
    → All (λ (x : ImportJobItem). has_status ImportJobItemStatus.running x ≡ false) t.items
      × All
          (λ (a : ImportAttempt).
            (is_running_attempt a.status && not (is_some a.finished_at)) ≡ false)
          t.attempts
recover_clears s now summary t h =
    let (items, attempts) =
      recompute_all-rows (requeued_store s now) (recovery_summary s).recovered_job_ids now t
        (recover-done s now summary t h) in
    (
      rw items (All-updated is_running requeued s.items (λ y. refl)),
      rw attempts (All-updated is_unfinished (interrupted_attempt now) s.attempts (λ y. refl)),
    )
