-- ===== src/Storage/Jobs/Lifecycle/Cancelled.antt =====
-- storage.rs: cancelling a job, the jobs' counts, and results that come after it.
use ship_flow_tauri.Prelude.{
  ℕ, Text, List, [], ◌∷◌, ◌≡◌, refl, sym, subst, ap, text_eq, nat_eq, text_beq_iff, text_ne_sym,
  ◌&&◌, count, sum_by, All, Bool-cases, inl, inr, ◌⊎◌, arith, if◌then◌else◌,
}
use ship_flow_tauri.Prelude.Table.{update_where, All-map, count-update_where}
use ship_flow_tauri.Storage.Tables.{
  Store, ImportJob, ImportJobItem, ImportJobItemStatus, ok, item_status_eq,
}
use ship_flow_tauri.Storage.Jobs.{
  as_u32, job_has_id, item_of_job, has_status, count_import_items_by_status_on, job_status_of,
}
use ship_flow_tauri.Storage.Jobs.Counts.{
  IsConsistent, IsCounted, SameElsewhere, IsCounted-elsewhere, update_where-HasUniqueIds,
  update_where-SameElsewhere,
}
use ship_flow_tauri.Storage.Jobs.Lifecycle.{
  is_open_item, cancelled_item, cancelled_job, cancel_import_job, cancel_store,
}

pub cancel-eq :
    (s : Store) (job_id : Text) (now : ℕ) (t : Store)
    → cancel_import_job s job_id now ≡ ok t
    → cancel_store s job_id now ≡ t
unfolding cancel_import_job
cancel-eq s job_id now t h = ground (arith, h)

-- A cancelled job has no pending and no running item left.
no_open :
    (job_id : Text) (items : List ImportJobItem) (status : ImportJobItemStatus)
    → (status ≡ ImportJobItemStatus.pending) ⊎ (status ≡ ImportJobItemStatus.running)
    → count_import_items_by_status_on
        (update_where (is_open_item job_id) cancelled_item items)
        job_id
        status
      ≡ 0
unfolding count_import_items_by_status_on update_where sum_by
no_open job_id items status o = ap as_u32 (rows items)
  where
    rows :
        (part : List ImportJobItem)
        → count
            (λ item. item_of_job job_id item && has_status status item)
            (update_where (is_open_item job_id) cancelled_item part)
          ≡ 0
    rows [] = refl
    rows (x ∷ xs) = elim o [
      | inl e ↦ ground (arith, e, rows xs)
      | inr e ↦ ground (arith, e, rows xs)
    ]

cancelled_jobs-IsCounted :
    (job_id : Text) (now : ℕ) (items items' : List ImportJobItem) (jobs : List ImportJob)
    → SameElsewhere job_id items items'
    → count_import_items_by_status_on items' job_id ImportJobItemStatus.pending ≡ 0
    → count_import_items_by_status_on items' job_id ImportJobItemStatus.running ≡ 0
    → count (item_of_job job_id) items' ≡ count (item_of_job job_id) items
    → All (IsCounted items) jobs
    → All
        (IsCounted items')
        (update_where (job_has_id job_id) (cancelled_job items' job_id now) jobs)
unfolding update_where job_status_of
cancelled_jobs-IsCounted job_id now items items' [] same p r total c = tt
cancelled_jobs-IsCounted job_id now items items' (job ∷ jobs) same p r total c =
    (head, cancelled_jobs-IsCounted job_id now items items' jobs same p r total c.1)
  where
    head :
        IsCounted items'
          (if job_has_id job_id job then cancelled_job items' job_id now job else job)
    head = elim (Bool-cases (job_has_id job_id job)) [
      | inl mine ↦
          let e : job.job_id ≡ job_id = (text_beq_iff job.job_id job_id).0 mine in
          rw (mine, sym e)
            (record {
              success = refl;
              failed = refl;
              pending = ground (arith, p, r, e);
              total = ground (arith, c.0.total, total, e);
              derived = refl;
            })
      | inr other ↦ rw other (
          IsCounted-elsewhere job_id items items' job same (text_ne_sym job.job_id job_id other)
            c.0)
    ]

-- Cancelling a job keeps item ids unique and every job's counts and status those of its items.
pub cancel_import_job-IsConsistent :
    (s : Store) (job_id : Text) (now : ℕ) (t : Store)
    → cancel_import_job s job_id now ≡ ok t
    → IsConsistent s
    → IsConsistent t
cancel_import_job-IsConsistent s job_id now t h c =
    subst IsConsistent (cancel-eq s job_id now t h) (record {
      unique =
          update_where-HasUniqueIds (is_open_item job_id) cancelled_item (λ y. refl) (λ y. refl)
            s.items c.unique;
      counted =
          cancelled_jobs-IsCounted job_id now s.items _ s.jobs
            (update_where-SameElsewhere (is_open_item job_id) cancelled_item (λ y. refl) (λ y. refl)
              job_id s.items
              (All-map _ _ s.items (λ y _ m. ground (arith, m, text_beq_iff y.job_id job_id))
                c.unique))
            (no_open job_id s.items ImportJobItemStatus.pending (inl refl))
            (no_open job_id s.items ImportJobItemStatus.running (inr refl))
            (count-update_where (item_of_job job_id) (is_open_item job_id) cancelled_item s.items
              (All-map _ _ s.items (λ y _ m. refl) c.unique))
            c.counted;
    })
