-- ===== src/Storage/Jobs/Counts/Claims.antt =====
-- storage.rs: claiming the next pending item of a job.
use ship_flow_tauri.Prelude.{
  ℕ, Text, Bool, true, false, Option, none, some, List, [], ◌∷◌, ◌≡◌, refl, sym, subst, ◌==◌,
  text_eq, nat_eq, text_beq_iff, ◌&&◌, count, filter, filter_none, All, All-filter, Bool-cases, inl,
  inr, arith, ◌⊎◌,
}
use ship_flow_tauri.Prelude.Table.{find_where, update_where}
use ship_flow_tauri.Storage.Tables.{
  Store, ImportJobItem, ImportJobItemStatus, item_status_eq, ok, >>=-eq-ok,
}
use ship_flow_tauri.Storage.Jobs.{
  item_has_id, has_status, item_precedes, earlier, first_item, has_active_job, is_claimable,
  claimed, claim_item, claim_next_pending_import_job_item, recompute_import_job_counts_on,
  get_import_job_item,
}
use ship_flow_tauri.Storage.Jobs.Counts.{IsConsistent, change-IsConsistent}

-- Where ids are unique, a row with an id is the row that a lookup by the id finds.
pub row_of_id :
    (items : List ImportJobItem) (x y : ImportJobItem) (id : Text)
    → find_where (item_has_id id) items ≡ some x
    → find_where (item_has_id y.item_id) items ≡ some y
    → item_has_id id y ≡ true
    → y ≡ x
row_of_id items x y id hx hy e =
    let same : y.item_id ≡ id = (text_beq_iff y.item_id id).0 e in ground (arith, same, hx, hy)

All-earlier :
    (P : ImportJobItem → Type 0) (x y : ImportJobItem) (o : Option ImportJobItem)
    → P x
    → ((z : ImportJobItem) → o ≡ some z → P z)
    → earlier x o ≡ some y
    → P y
unfolding earlier
All-earlier P x y none px po h = let e : x ≡ y = cc in subst P e px
All-earlier P x y (some z) px po h = elim (Bool-cases (item_precedes x z)) [
  | inl first ↦ let e : x ≡ y = ground (arith, h, first) in subst P e px
  | inr later ↦ let e : z ≡ y = ground (arith, h, later) in subst P e (po z refl)
]

pub All-first_item :
    (P : ImportJobItem → Type 0) (items : List ImportJobItem) (x : ImportJobItem)
    → All P items
    → first_item items ≡ some x
    → P x
unfolding first_item
All-first_item P [] x a h = absurd (ground (arith, h))
All-first_item P (y ∷ ys) x a h =
    All-earlier P y x (first_item ys) a.0 (λ z e. All-first_item P ys z a.1 e) h

abbrev pub claim_matches : Store → ImportJobItem → ImportJobItem → Bool
claim_matches s item row =
    item_has_id item.item_id row
    && (has_status ImportJobItemStatus.pending row && has_active_job s.jobs row.job_id)

abbrev pub with_claim : Store → ImportJobItem → Store
with_claim s item = record s { items = update_where (claim_matches s item) claimed s.items }

-- What a claim does: nothing, or it marks one item of the job, which is recounted.
claim_item-steps :
    (s : Store) (job_id : Text) (now : ℕ) (item : ImportJobItem) (o : Option ImportJobItem)
    (t : Store)
    → claim_item s job_id now (some item) ≡ ok (o, t)
    → (t ≡ s) ⊎ (recompute_import_job_counts_on (with_claim s item) job_id now ≡ ok t)
unfolding claim_item
claim_item-steps s job_id now item o t h =
    elim (Bool-cases (count (claim_matches s item) s.items == 0)) [
      | inl nothing ↦ inl (ground (arith, h, nothing))
      | inr some_row ↦
          let (t', done, rest) =
            >>=-eq-ok (recompute_import_job_counts_on (with_claim s item) job_id now)
              (λ u. ok (get_import_job_item u item.item_id, u)) {b = (o, t)} (rw some_row at h) in
          inr (ground (arith, done, rest))
    ]

-- A claim leaves the store as it was, or marks one item of the job, which is recounted.
pub claim-cases :
    (s : Store) (job_id : Text) (now : ℕ) (o : Option ImportJobItem) (t : Store)
    → claim_next_pending_import_job_item s job_id now ≡ ok (o, t)
    → (t ≡ s)
      ⊎ ((item : ImportJobItem) × (first_item (filter (is_claimable s job_id) s.items) ≡ some item)
          × (recompute_import_job_counts_on (with_claim s item) job_id now ≡ ok t))
unfolding claim_next_pending_import_job_item claim_item
claim-cases s job_id now o t h =
    by_choice (first_item (filter (is_claimable s job_id) s.items)) refl h
  where
    by_choice :
        (choice : Option ImportJobItem)
        → first_item (filter (is_claimable s job_id) s.items) ≡ choice
        → claim_item s job_id now choice ≡ ok (o, t)
        → (t ≡ s)
          ⊎ ((item : ImportJobItem) × (first_item (filter (is_claimable s job_id) s.items)
                ≡ some item)
              × (recompute_import_job_counts_on (with_claim s item) job_id now ≡ ok t))
    by_choice none e h' = inl (ground (arith, h'))
    by_choice (some item) e h' = elim (claim_item-steps s job_id now item o t h') [
      | inl same ↦ inl same
      | inr counted ↦ inr (item, e, counted)
    ]

-- Claiming an item keeps item ids unique and every job's counts and status those of its items.
pub claim-IsConsistent :
    (s : Store) (job_id : Text) (now : ℕ) (o : Option ImportJobItem) (t : Store)
    → claim_next_pending_import_job_item s job_id now ≡ ok (o, t)
    → IsConsistent s
    → IsConsistent t
claim-IsConsistent s job_id now o t h c = elim (claim-cases s job_id now o t h) [
  | inl same ↦ subst IsConsistent (sym same) c
  | inr (item, e, counted) ↦
      let (found, claimable) =
        All-first_item _ (filter (is_claimable s job_id) s.items) item
          (All-filter _ (is_claimable s job_id) s.items c.unique) e in
      change-IsConsistent s s.attempts (claim_matches s item) claimed job_id now t (λ y. refl)
        (λ y. refl) counted
        (λ y hy m. ground (
          arith,
          row_of_id s.items item y item.item_id found hy,
          m,
          claimable,
          text_beq_iff item.job_id job_id,
        ))
        c
]

-- A job that is cancelled, or missing, has nothing to claim, and claiming changes nothing.
pub claim_inactive :
    (s : Store) (job_id : Text) (now : ℕ)
    → has_active_job s.jobs job_id ≡ false
    → claim_next_pending_import_job_item s job_id now ≡ ok (none, s)
unfolding claim_next_pending_import_job_item claim_item first_item
claim_inactive s job_id now h =
    rw
      (filter_none (is_claimable s job_id) s.items
        (λ y. ground (arith, h, text_beq_iff y.job_id job_id)))
      refl
