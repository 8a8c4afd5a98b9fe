-- ===== src/Storage/Jobs/Counts.antt =====
-- storage.rs: the invariant of import jobs. Item ids are unique, and the counts and the status of
-- every job are those of its items.
pub mod Claims
pub mod Order
use ship_flow_tauri.Prelude.{
  ℕ, ◌+◌, Text, Bool, true, false, Option, none, some, List, [], ◌∷◌, ◌≡◌, refl, sym, ap, subst,
  ◌∙◌, ◌==◌, text_eq, text_beq_iff, text_ne_sym, ◌&&◌, if◌then◌else◌, sum_by, count, All,
  Bool-cases, inl, inr, arith, weight_of,
}
use ship_flow_tauri.Prelude.Table.{find_where, any, update_where, count-update_where, All-map}
use ship_flow_tauri.Storage.Tables.{
  Store, ImportJob, ImportJobItem, ImportAttempt, ImportJobStatus, ImportJobItemStatus,
  item_status_eq, is_cancelled, ok,
}
use ship_flow_tauri.Storage.Jobs.{
  as_u32, job_has_id, item_has_id, item_of_job, has_status, count_import_items_by_status_on,
  job_status_of, recounted, recompute_import_job_counts_on,
}

-- The counts of one job, and its status, which is derived from them unless it is cancelled.
pub record IsCounted (items : List ImportJobItem) (job : ImportJob) : Type 0 where
  pub success :
      job.success_count
      ≡ count_import_items_by_status_on items job.job_id ImportJobItemStatus.succeeded
  pub failed :
      job.failed_count ≡ count_import_items_by_status_on items job.job_id ImportJobItemStatus.failed
  pub pending :
      job.pending_count
      ≡ as_u32 (
          count_import_items_by_status_on items job.job_id ImportJobItemStatus.pending
          + count_import_items_by_status_on items job.job_id ImportJobItemStatus.running)
  pub total : job.total_count ≡ count (item_of_job job.job_id) items
  pub derived :
      job.status
      ≡ job_status_of job.status job.pending_count job.failed_count job.total_count
          job.success_count

-- Every row is the one that a lookup by its id finds.
abbrev pub HasUniqueIds : List ImportJobItem → Type 0
HasUniqueIds items =
    All (λ (x : ImportJobItem). find_where (item_has_id x.item_id) items ≡ some x) items

pub record IsConsistent (s : Store) : Type 0 where
  pub unique : HasUniqueIds s.items
  pub counted : All (IsCounted s.items) s.jobs

-- What the jobs other than `job_id` count is the same in two tables.
pub record SameElsewhere (job_id : Text) (items items' : List ImportJobItem) : Type 0 where
  pub by_status :
      (j : Text) (status : ImportJobItemStatus)
      → (job_id == j) ≡ false
      → count_import_items_by_status_on items' j status
        ≡ count_import_items_by_status_on items j status
  pub total :
      (j : Text)
      → (job_id == j) ≡ false
      → count (item_of_job j) items' ≡ count (item_of_job j) items

pub SameElsewhere-trans :
    (job_id : Text) (a b c : List ImportJobItem)
    → SameElsewhere job_id a b
    → SameElsewhere job_id b c
    → SameElsewhere job_id a c
SameElsewhere-trans job_id a b c ab bc = record {
  by_status = λ j status other. bc.by_status j status other ∙ ab.by_status j status other;
  total = λ j other. bc.total j other ∙ ab.total j other;
}

recounted-IsCounted :
    (items : List ImportJobItem) (job_id : Text) (now : ℕ) (job : ImportJob)
    → job.job_id ≡ job_id
    → IsCounted items (recounted items job_id now job)
unfolding recounted job_status_of
recounted-IsCounted items job_id now job e =
    rw (sym e) (record {
      success = refl;
      failed = refl;
      pending = refl;
      total = refl;
      derived = ground arith;
    })

pub IsCounted-elsewhere :
    (job_id : Text) (items items' : List ImportJobItem) (job : ImportJob)
    → SameElsewhere job_id items items'
    → (job_id == job.job_id) ≡ false
    → IsCounted items job
    → IsCounted items' job
IsCounted-elsewhere job_id items items' job same h c = record {
  success = ground (arith, same.by_status job.job_id ImportJobItemStatus.succeeded h, c.success);
  failed = ground (arith, same.by_status job.job_id ImportJobItemStatus.failed h, c.failed);
  pending = ground (
    arith,
    same.by_status job.job_id ImportJobItemStatus.pending h,
    same.by_status job.job_id ImportJobItemStatus.running h,
    c.pending,
  );
  total = ground (arith, same.total job.job_id h, c.total);
  derived = c.derived;
}

-- A job other than `job_id` is counted.
abbrev pub IsCountedBut : Text → List ImportJobItem → ImportJob → Type 0
IsCountedBut job_id items job = (job_id == job.job_id) ≡ false → IsCounted items job

recomputed_jobs :
    (job_id : Text) (now : ℕ) (items items' : List ImportJobItem) (jobs : List ImportJob)
    → SameElsewhere job_id items items'
    → All (IsCountedBut job_id items) jobs
    → All (IsCounted items') (update_where (job_has_id job_id) (recounted items' job_id now) jobs)
unfolding update_where
recomputed_jobs job_id now items items' [] same c = tt
recomputed_jobs job_id now items items' (job ∷ jobs) same c =
    (head, recomputed_jobs job_id now items items' jobs same c.1)
  where
    head : IsCounted items' (if job_has_id job_id job then recounted items' job_id now job else job)
    head = elim (Bool-cases (job_has_id job_id job)) [
      | inl mine ↦
          rw mine
            (recounted-IsCounted items' job_id now job ((text_beq_iff job.job_id job_id).0 mine))
      | inr other ↦ rw other (
          IsCounted-elsewhere job_id items items' job same (text_ne_sym job.job_id job_id other)
            (c.0 (text_ne_sym job.job_id job_id other)))
    ]

abbrev pub recount_of : Store → Text → ℕ → Store
recount_of s job_id now = record s {
  jobs = update_where (job_has_id job_id) (recounted s.items job_id now) s.jobs;
}

pub recompute-eq :
    (s : Store) (job_id : Text) (now : ℕ) (t : Store)
    → recompute_import_job_counts_on s job_id now ≡ ok t
    → t ≡ recount_of s job_id now
unfolding recompute_import_job_counts_on
recompute-eq s job_id now t h = ground (arith, h)

-- A change of one job's items, followed by a recount of that job, gives a consistent store.
pub recompute-IsConsistent :
    (s : Store) (job_id : Text) (now : ℕ) (items : List ImportJobItem) (t : Store)
    → recompute_import_job_counts_on s job_id now ≡ ok t
    → SameElsewhere job_id items s.items
    → HasUniqueIds s.items
    → All (IsCountedBut job_id items) s.jobs
    → IsConsistent t
recompute-IsConsistent s job_id now items t h same unique c =
    subst IsConsistent (sym (recompute-eq s job_id now t h))
      (record { unique = unique; counted = recomputed_jobs job_id now items s.items s.jobs same c })

-- Counted jobs are counted whichever is left out.
pub counted_but :
    (job_id : Text) (items : List ImportJobItem) (jobs : List ImportJob)
    → All (IsCounted items) jobs
    → All (IsCountedBut job_id items) jobs
counted_but job_id items jobs c = All-map _ _ jobs (λ job k other. k) c

-- An update of rows of one job, which keeps their ids and jobs.
pub find-update_where :
    (p : ImportJobItem → Bool) (f : ImportJobItem → ImportJobItem) (id : Text)
    (items : List ImportJobItem) (x : ImportJobItem)
    → ((y : ImportJobItem) → (f y).item_id ≡ y.item_id)
    → find_where (item_has_id id) items ≡ some x
    → find_where (item_has_id id) (update_where p f items) ≡ some (if p x then f x else x)
unfolding find_where update_where
find-update_where p f id [] x keeps h = ground (arith, h)
find-update_where p f id (y ∷ ys) x keeps h =
    ground (arith, h, keeps y, find-update_where p f id ys x keeps)

module _ (p : ImportJobItem → Bool) (f : ImportJobItem → ImportJobItem)
    (keeps_id : (y : ImportJobItem) → (f y).item_id ≡ y.item_id)
    (keeps_job : (y : ImportJobItem) → (f y).job_id ≡ y.job_id) where
  pub update_where-HasUniqueIds :
      (items : List ImportJobItem) → HasUniqueIds items → HasUniqueIds (update_where p f items)
  unfolding update_where
  update_where-HasUniqueIds items u = rows items u
    where
      rows :
          (part : List ImportJobItem)
          → All (λ (x : ImportJobItem). find_where (item_has_id x.item_id) items ≡ some x) part
          → All
              (λ (x : ImportJobItem).
                find_where (item_has_id x.item_id) (update_where p f items) ≡ some x)
              (update_where p f part)
      rows [] a = tt
      rows (x ∷ part) a = (
        ground (arith, find-update_where p f x.item_id items x keeps_id a.0, keeps_id x),
        rows part a.1,
      )

  pub update_where-SameElsewhere :
      (job_id : Text) (items : List ImportJobItem)
      → All (λ (y : ImportJobItem). p y ≡ true → y.job_id ≡ job_id) items
      → SameElsewhere job_id items (update_where p f items)
  unfolding count_import_items_by_status_on
  update_where-SameElsewhere job_id items mine = record {
    by_status = λ j status other. ap as_u32 (
        count-update_where _ p f items (
          All-map _ _ items
            (λ y h q.
              ground
                (arith, h q, keeps_job y, text_beq_iff y.job_id j, text_beq_iff job_id j, other))
            mine));
    total = λ j other. count-update_where _ p f items (
        All-map _ _ items
          (λ y h q.
            ground (arith, h q, keeps_job y, text_beq_iff y.job_id j, text_beq_iff job_id j, other))
          mine);
  }

-- An update of the rows of one job, and of the attempts, followed by a recount of that job.
pub change-IsConsistent :
    (s : Store) (attempts : List ImportAttempt) (p : ImportJobItem → Bool)
    (f : ImportJobItem → ImportJobItem) (job_id : Text) (now : ℕ) (t : Store)
    → ((y : ImportJobItem) → (f y).item_id ≡ y.item_id)
    → ((y : ImportJobItem) → (f y).job_id ≡ y.job_id)
    → recompute_import_job_counts_on
        (record s { attempts = attempts; items = update_where p f s.items })
        job_id
        now
      ≡ ok t
    → ((y : ImportJobItem)
        → find_where (item_has_id y.item_id) s.items ≡ some y
        → p y ≡ true
        → y.job_id ≡ job_id)
    → IsConsistent s
    → IsConsistent t
change-IsConsistent s attempts p f job_id now t keeps_id keeps_job done mine c =
    recompute-IsConsistent (record s { attempts = attempts; items = update_where p f s.items })
      job_id now s.items t done
      (update_where-SameElsewhere p f keeps_id keeps_job job_id s.items
        (All-map _ _ s.items mine c.unique))
      (update_where-HasUniqueIds p f keeps_id keeps_job s.items c.unique)
      (counted_but job_id s.items s.jobs c.counted)
