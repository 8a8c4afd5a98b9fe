-- ===== src/Storage/Jobs/Counts/Order.antt =====
-- storage.rs: which item a claim hands out.
use ship_flow_tauri.Prelude.{
  ℕ, ◌≤◌, ◌<◌, Text, Bool, true, false, none, some, List, [], ◌∷◌, ◌≡◌, refl, ap, ◌∙◌, ◌==◌,
  text_eq, nat_eq, text_beq_iff, count, sum_by, filter, All, All-filter, Bool-cases, Option-cases,
  inl, inr, arith,
}
use ship_flow_tauri.Prelude.Table.{find_where, any, All-map}
use ship_flow_tauri.Storage.Tables.{Store, ImportJob, ImportJobItem, item_status_eq, ok}
use ship_flow_tauri.Storage.Jobs.{
  item_has_id, job_has_id, item_precedes, earlier, first_item, has_active_job, is_claimable,
  claimed, claim_item, claim_next_pending_import_job_item, recompute_import_job_counts_on,
  get_import_job_item,
}
use ship_flow_tauri.Storage.Jobs.Counts.{IsConsistent, recount_of, find-update_where}
use ship_flow_tauri.Storage.Jobs.Counts.Claims.{claim_matches, with_claim, All-first_item}

abbrev IsFirst : ImportJobItem → List ImportJobItem → Type 0
IsFirst x xs = All (λ (y : ImportJobItem). x.position ≤ y.position) xs

first_item-none : (xs : List ImportJobItem) → first_item xs ≡ none → xs ≡ []
unfolding first_item earlier
first_item-none [] h = refl
first_item-none (x ∷ xs) h = ground (arith, h)

first_item-IsFirst :
    (xs : List ImportJobItem) (x : ImportJobItem) → first_item xs ≡ some x → IsFirst x xs
unfolding first_item earlier item_precedes
first_item-IsFirst [] x h = tt
first_item-IsFirst (y ∷ ys) x h = elim (Option-cases (first_item ys)) [
  | inl e ↦ let empty : ys ≡ [] = first_item-none ys e in rw empty (ground (arith, h, e))
  | inr (z, e) ↦ (
    ground (arith, h, e),
    All-map _ _ ys (λ w hw. ground (arith, h, e, hw)) (first_item-IsFirst ys z e),
  )
]

filter-nil :
    (p : ImportJobItem → Bool) (xs : List ImportJobItem) → filter p xs ≡ [] → count p xs ≡ 0
unfolding filter sum_by
filter-nil p [] h = refl
filter-nil p (x ∷ xs) h = ground (arith, h, filter-nil p xs)

count-found :
    (q m : ImportJobItem → Bool) (xs : List ImportJobItem) (x : ImportJobItem)
    → find_where q xs ≡ some x
    → m x ≡ true
    → 0 < count m xs
unfolding find_where sum_by
count-found q m [] x h e = ground (arith, h)
count-found q m (y ∷ ys) x h e = ground (arith, h, e, count-found q m ys x)

All-unfilter :
    (P : ImportJobItem → Type 0) (p : ImportJobItem → Bool) (xs : List ImportJobItem)
    → All P (filter p xs)
    → All (λ (y : ImportJobItem). p y ≡ true → P y) xs
unfolding filter
All-unfilter P p [] a = tt
All-unfilter P p (x ∷ xs) a = elim (Bool-cases (p x)) [
  | inl e ↦ let a' : P x × All P (filter p xs) = rw e at a in (λ _. a'.0, All-unfilter P p xs a'.1)
  | inr e ↦
      let a' : All P (filter p xs) = rw e at a in
      (λ e'. absurd (ground (arith, e, e')), All-unfilter P p xs a')
]

active_exists :
    (jobs : List ImportJob) (job_id : Text)
    → has_active_job jobs job_id ≡ true
    → any (job_has_id job_id) jobs ≡ true
unfolding has_active_job any
active_exists [] job_id h = ground (arith, h)
active_exists (job ∷ jobs) job_id h = ground (arith, h, active_exists jobs job_id)

-- What is handed out: the chosen item, now running.
claim_item-some :
    (s : Store) (job_id : Text) (now : ℕ) (item : ImportJobItem)
    → find_where (item_has_id item.item_id) s.items ≡ some item
    → is_claimable s job_id item ≡ true
    → claim_item s job_id now (some item)
      ≡ ok (some (claimed item), recount_of (with_claim s item) job_id now)
unfolding claim_item recompute_import_job_counts_on get_import_job_item
claim_item-some s job_id now item found claimable =
    let mine : claim_matches s item item ≡ true =
      ground (arith, claimable, text_beq_iff item.item_id item.item_id) in
    let exists =
      active_exists s.jobs job_id (ground (arith, claimable, text_beq_iff item.job_id job_id)) in
    let matched : (count (claim_matches s item) s.items == 0) ≡ false = ground (
      arith,
      count-found (item_has_id item.item_id) (claim_matches s item) s.items item found mine,
    ) in
    rw
      (
        matched,
        exists,
        find-update_where (claim_matches s item) claimed item.item_id s.items item (λ y. refl)
            found,
        mine,
      )
      refl

-- Where item ids are unique and a job has a pending item, and is not cancelled, a claim succeeds: it
-- hands out, as running, an item of the job that was pending, and no pending item of the job stands
-- at an earlier position.
pub claim_first :
    (s : Store) (job_id : Text) (now : ℕ)
    → IsConsistent s
    → 0 < count (is_claimable s job_id) s.items
    → (item : ImportJobItem) × (t : Store) × (claim_next_pending_import_job_item s job_id now
        ≡ ok (some (claimed item), t))
      × (find_where (item_has_id item.item_id) s.items ≡ some item)
      × (is_claimable s job_id item ≡ true)
      × All
          (λ (y : ImportJobItem). is_claimable s job_id y ≡ true → item.position ≤ y.position)
          s.items
unfolding claim_next_pending_import_job_item
claim_first s job_id now c waiting =
    elim (Option-cases (first_item (filter (is_claimable s job_id) s.items))) [
      | inl nothing ↦ absurd (
          omega (
            arith,
            waiting,
            filter-nil (is_claimable s job_id) s.items
                (first_item-none (filter (is_claimable s job_id) s.items) nothing),
          ))
      | inr (item, e) ↦
          let (found, claimable) =
            All-first_item _ (filter (is_claimable s job_id) s.items) item
              (All-filter _ (is_claimable s job_id) s.items c.unique) e in
          (
            item,
            recount_of (with_claim s item) job_id now,
            ap (claim_item s job_id now) e ∙ claim_item-some s job_id now item found claimable,
            found,
            claimable,
            All-unfilter _ (is_claimable s job_id) s.items
                (first_item-IsFirst (filter (is_claimable s job_id) s.items) item e),
          )
    ]
