-- ===== src/Storage/Jobs/Lifecycle/Retries.antt =====
-- storage.rs: retrying the failed items of a job.
use ship_flow_tauri.Prelude.{
  ℕ, Text, Bool, true, false, none, some, List, [], ◌∷◌, ◌≡◌, refl, sym, ap, ◌∙◌, text_eq, nat_eq,
  ◌==◌, ◌&&◌, ltb, map, if◌then◌else◌, text_beq_iff, ◌||◌, filter, All, All-filter, Bool-cases, inl,
  inr, arith, is_some,
}
use ship_flow_tauri.Prelude.Table.{find_where, any, update_where, sort_by, insert_by, All-map}
use ship_flow_tauri.Storage.Tables.{
  Store, ImportJob, ImportJobItem, ImportJobItemStatus, ok, item_status_eq, >>=-eq-ok,
  guard->>-eq-ok,
}
use ship_flow_tauri.Storage.Jobs.{
  item_has_id, job_has_id, item_precedes, recompute_import_job_counts_on, has_active_job,
  get_import_job_summary, recounted, job_status_of, claim_next_pending_import_job_item,
}
use ship_flow_tauri.Storage.Jobs.Counts.{
  IsConsistent, HasUniqueIds, change-IsConsistent, recount_of,
}
use ship_flow_tauri.Storage.Jobs.Counts.Claims.{row_of_id, claim_inactive}
use ship_flow_tauri.Storage.Jobs.Lifecycle.{
  ImportRetryTargets, retry_import_job_failed, is_retryable, reset_item, reset_items, retry_targets,
}
use ship_flow_tauri.Storage.Jobs.Attempts.Kept.{
  KeepsItems, same-KeepsItems, trans-KeepsItems, update-KeepsItems,
}

-- Whether the list has an item with the id of `y`.
abbrev names : List ImportJobItem → ImportJobItem → Bool
names list y = any (λ x. item_has_id x.item_id y) list

update_where-never :
    (items : List ImportJobItem) → update_where (λ _. false) reset_item items ≡ items
unfolding update_where
update_where-never [] = refl
update_where-never (x ∷ xs) = ground (arith, update_where-never xs)

twice :
    (x : ImportJobItem) (list items : List ImportJobItem)
    → update_where (names list) reset_item (update_where (item_has_id x.item_id) reset_item items)
      ≡ update_where (λ y. item_has_id x.item_id y || names list y) reset_item items
unfolding update_where
twice x list [] = refl
twice x list (y ∷ ys) = ground (arith, twice x list ys)

reset_items-eq :
    (items list : List ImportJobItem)
    → reset_items items list ≡ update_where (names list) reset_item items
unfolding reset_items any
reset_items-eq items [] = sym (update_where-never items)
reset_items-eq items (x ∷ list) =
    reset_items-eq (update_where (item_has_id x.item_id) reset_item items) list ∙ twice x list items

any-insert_by :
    (le : ImportJobItem → ImportJobItem → Bool) (p : ImportJobItem → Bool) (x : ImportJobItem)
    (xs : List ImportJobItem)
    → any p (insert_by le x xs) ≡ (p x || any p xs)
unfolding insert_by any
any-insert_by le p x [] = refl
any-insert_by le p x (y ∷ ys) = ground (arith, any-insert_by le p x ys)

any-sort_by :
    (le : ImportJobItem → ImportJobItem → Bool) (p : ImportJobItem → Bool) (xs : List ImportJobItem)
    → any p (sort_by le xs) ≡ any p xs
unfolding sort_by any
any-sort_by le p [] = refl
any-sort_by le p (x ∷ xs) =
    any-insert_by le p x (sort_by le xs) ∙ ap (λ b. p x || b) (any-sort_by le p xs)

update_where-ext :
    (p q : ImportJobItem → Bool) (f : ImportJobItem → ImportJobItem) (xs : List ImportJobItem)
    → All (λ (y : ImportJobItem). p y ≡ q y) xs
    → update_where p f xs ≡ update_where q f xs
unfolding update_where
update_where-ext p q f [] h = refl
update_where-ext p q f (x ∷ xs) h = ground (arith, h.0, update_where-ext p q f xs h.1)

-- A row found by its id is in a filtered list where it passes the filter.
any-found :
    (q q' r : ImportJobItem → Bool) (xs : List ImportJobItem) (y : ImportJobItem)
    → ((x : ImportJobItem) → q x ≡ true → q' x ≡ true)
    → find_where q xs ≡ some y
    → r y ≡ true
    → any q' (filter r xs) ≡ true
unfolding find_where filter any
any-found q q' r [] y imp h e = ground (arith, h)
any-found q q' r (x ∷ xs) y imp h e = ground (arith, h, e, imp x, any-found q q' r xs y imp)

any-witness :
    (P : ImportJobItem → Type 0) (q : ImportJobItem → Bool) (xs : List ImportJobItem)
    → any q xs ≡ true
    → All P xs
    → (x : ImportJobItem) × P x × (q x ≡ true)
unfolding any
any-witness P q [] h a = absurd (ground (arith, h))
any-witness P q (x ∷ xs) h a = elim (Bool-cases (q x)) [
  | inl e ↦ (x, a.0, e)
  | inr e ↦ any-witness P q xs (ground (arith, h, e)) a.1
]

-- Among rows with unique ids, those with the id of a retryable row are the retryable rows.
names_retryable :
    (job_id : Text) (max_attempts : ℕ) (items : List ImportJobItem) (y : ImportJobItem)
    → HasUniqueIds items
    → find_where (item_has_id y.item_id) items ≡ some y
    → names (filter (is_retryable job_id max_attempts) items) y ≡ is_retryable job_id max_attempts y
names_retryable job_id max_attempts items y u found =
    elim (Bool-cases (is_retryable job_id max_attempts y)) [
      | inl wanted ↦
          any-found (item_has_id y.item_id) (λ x. item_has_id x.item_id y)
            (is_retryable job_id max_attempts) items y
            (λ x e.
              ground (arith, e, text_beq_iff x.item_id y.item_id, text_beq_iff y.item_id x.item_id))
            found wanted
          ∙ sym wanted
      | inr unwanted ↦
          elim (Bool-cases (names (filter (is_retryable job_id max_attempts) items) y)) [
            | inr out ↦ out ∙ sym unwanted
            | inl named ↦
                let (x, (hx, px), e) =
                  any-witness _ (λ x. item_has_id x.item_id y)
                    (filter (is_retryable job_id max_attempts) items) named
                    (All-filter _ (is_retryable job_id max_attempts) items u) in
                let same : y ≡ x = row_of_id items x y x.item_id hx found e in
                absurd (ground (arith, px, unwanted, ap (is_retryable job_id max_attempts) same))
          ]
    ]

abbrev pub retried_store : Store → Text → ℕ → Store
retried_store s job_id max_attempts = record s {
  items = update_where (is_retryable job_id max_attempts) reset_item s.items;
}

abbrev chosen : Store → Text → ℕ → List ImportJobItem
chosen s job_id max_attempts =
    sort_by item_precedes (filter (is_retryable job_id max_attempts) s.items)

reset_chosen :
    (s : Store) (job_id : Text) (max_attempts : ℕ)
    → IsConsistent s
    → reset_items s.items (chosen s job_id max_attempts)
      ≡ update_where (is_retryable job_id max_attempts) reset_item s.items
reset_chosen s job_id max_attempts c =
    reset_items-eq s.items (chosen s job_id max_attempts)
    ∙ update_where-ext (names (chosen s job_id max_attempts)) (is_retryable job_id max_attempts)
        reset_item s.items
        (All-map _ _ s.items
          (λ y found.
            any-sort_by item_precedes (λ x. item_has_id x.item_id y)
              (filter (is_retryable job_id max_attempts) s.items)
            ∙ names_retryable job_id max_attempts s.items y c.unique found)
          c.unique)

abbrev pub reset_store : Store → Text → ℕ → Store
reset_store s job_id max_attempts = record s {
  items = reset_items s.items (chosen s job_id max_attempts);
}

-- A retry resets rows and then recounts the job.
pub retry-IsRecount :
    (s : Store) (job_id : Text) (max_attempts now : ℕ) (targets : ImportRetryTargets) (t : Store)
    → retry_import_job_failed s job_id max_attempts now ≡ ok (targets, t)
    → recompute_import_job_counts_on (reset_store s job_id max_attempts) job_id now ≡ ok t
unfolding retry_import_job_failed
retry-IsRecount s job_id max_attempts now targets t h =
    let (_, h1) = guard->>-eq-ok (is_some (get_import_job_summary s job_id)) _ h in
    let (u, done, h2) =
      >>=-eq-ok (recompute_import_job_counts_on (reset_store s job_id max_attempts) job_id now) _
        h1 in
    ground (arith, done, h2)

pub reset_items-KeepsItems :
    (items list : List ImportJobItem) → KeepsItems items (reset_items items list)
unfolding reset_items
reset_items-KeepsItems items [] = same-KeepsItems items
reset_items-KeepsItems items (x ∷ list) =
    let next = update_where (item_has_id x.item_id) reset_item items in
    trans-KeepsItems items next (reset_items next list)
      (update-KeepsItems (item_has_id x.item_id) reset_item items (λ y. refl) (λ y. refl))
      (reset_items-KeepsItems next list)

-- Where item ids are unique, a retry, which resets the failed items one by one, is one update: the
-- failed items of the job with attempts left become pending, no other row changes, and the job is
-- recounted.
pub retry-eq :
    (s : Store) (job_id : Text) (max_attempts now : ℕ) (targets : ImportRetryTargets) (t : Store)
    → retry_import_job_failed s job_id max_attempts now ≡ ok (targets, t)
    → IsConsistent s
    → recompute_import_job_counts_on (retried_store s job_id max_attempts) job_id now ≡ ok t
retry-eq s job_id max_attempts now targets t h c =
    ap (λ rows. recompute_import_job_counts_on (record s { items = rows }) job_id now)
      (sym (reset_chosen s job_id max_attempts c))
    ∙ retry-IsRecount s job_id max_attempts now targets t h

-- A retry keeps item ids unique and every job's counts and status those of its items.
pub retry-IsConsistent :
    (s : Store) (job_id : Text) (max_attempts now : ℕ) (targets : ImportRetryTargets) (t : Store)
    → retry_import_job_failed s job_id max_attempts now ≡ ok (targets, t)
    → IsConsistent s
    → IsConsistent t
retry-IsConsistent s job_id max_attempts now targets t h c =
    change-IsConsistent s s.attempts (is_retryable job_id max_attempts) reset_item job_id now t
      (λ y. refl) (λ y. refl) (retry-eq s job_id max_attempts now targets t h c)
      (λ y _ m. ground (arith, m, text_beq_iff y.job_id job_id)) c

pub recounted_inactive :
    (items : List ImportJobItem) (job_id id : Text) (now : ℕ) (jobs : List ImportJob)
    → has_active_job jobs id ≡ false
    → has_active_job (update_where (job_has_id job_id) (recounted items job_id now) jobs) id ≡ false
unfolding has_active_job any update_where recounted job_status_of
recounted_inactive items job_id id now [] h = refl
recounted_inactive items job_id id now (job ∷ jobs) h =
    ground (arith, h, recounted_inactive items job_id id now jobs)

abbrev is_failed_status : ImportJobItemStatus → Bool
is_failed_status ImportJobItemStatus.failed = true
is_failed_status _ = false

-- An item after a retry: a failed one of the job with attempts left is pending, without a result.
abbrev pub retried_item : Text → ℕ → ImportJobItem → ImportJobItem
retried_item job_id max_attempts item =
    if is_failed_status item.status
      && ((item.job_id == job_id) && ltb item.attempt_count max_attempts)
    then record item {
      status = ImportJobItemStatus.pending;
      tracking_ids = [];
      sheet_row_ids = [];
      error_message = none;
    }
    else item

failed_eq :
    (status : ImportJobItemStatus)
    → (status == ImportJobItemStatus.failed) ≡ is_failed_status status
failed_eq ImportJobItemStatus.pending = refl
failed_eq ImportJobItemStatus.running = refl
failed_eq ImportJobItemStatus.succeeded = refl
failed_eq ImportJobItemStatus.failed = refl
failed_eq ImportJobItemStatus.cancelled = refl

retried_items :
    (job_id : Text) (max_attempts : ℕ) (items : List ImportJobItem)
    → update_where (is_retryable job_id max_attempts) reset_item items
      ≡ map (retried_item job_id max_attempts) items
unfolding update_where
retried_items job_id max_attempts [] = refl
retried_items job_id max_attempts (x ∷ xs) =
    ground (arith, failed_eq x.status, retried_items job_id max_attempts xs)

found-any :
    (id : Text) (jobs : List ImportJob) (job : ImportJob)
    → find_where (job_has_id id) jobs ≡ some job
    → any (job_has_id id) jobs ≡ true
unfolding find_where any
found-any id [] job h = ground (arith, h)
found-any id (x ∷ xs) job h = ground (arith, h, found-any id xs job)

-- Where item ids are unique, a retry of a job in its table succeeds: it is one update, and a recount.
pub retry_total :
    (s : Store) (job_id : Text) (max_attempts now : ℕ) (job : ImportJob)
    → IsConsistent s
    → get_import_job_summary s job_id ≡ some job
    → (targets : ImportRetryTargets) × (retry_import_job_failed s job_id max_attempts now
        ≡ ok (targets, recount_of (retried_store s job_id max_attempts) job_id now))
unfolding retry_import_job_failed recompute_import_job_counts_on get_import_job_summary
retry_total s job_id max_attempts now job c found =
    let targets =
      retry_targets (record { source_item_ids = []; manifest_bag_ids = [] })
        (chosen s job_id max_attempts) in
    (
      targets,
      rw (found, reset_chosen s job_id max_attempts c, found-any job_id s.jobs job found) refl,
    )

-- A retry of a cancelled job in its table succeeds: the failed items of the job with attempts left
-- become pending and no other item changes, and yet no claim hands an item of the job out.
pub retry_cancelled :
    (s : Store) (job_id : Text) (max_attempts now later : ℕ) (job : ImportJob)
    → IsConsistent s
    → get_import_job_summary s job_id ≡ some job
    → has_active_job s.jobs job_id ≡ false
    → (targets : ImportRetryTargets) × (t : Store) × (retry_import_job_failed s job_id max_attempts
          now
        ≡ ok (targets, t))
      × (t.items ≡ map (retried_item job_id max_attempts) s.items)
      × (claim_next_pending_import_job_item t job_id later ≡ ok (none, t))
retry_cancelled s job_id max_attempts now later job c found inactive =
    let u = retried_store s job_id max_attempts in
    let (targets, done) = retry_total s job_id max_attempts now job c found in
    (
      targets,
      recount_of u job_id now,
      done,
      retried_items job_id max_attempts s.items,
      claim_inactive (recount_of u job_id now) job_id later
          (recounted_inactive u.items job_id job_id now s.jobs inactive),
    )
