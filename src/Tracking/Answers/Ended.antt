-- ===== src/Tracking/Answers/Ended.antt =====
-- tracking.rs: the rows that a refreshed batch leaves behind.
use ship_flow_tauri.Prelude.{
  ℕ, Text, Bool, true, false, Option, none, some, List, [], ◌∷◌, ◌≡◌, refl, sym, subst, inl, inr,
  text_eq, text_refl, not, ◌&&◌, All, Bool-cases, if◌then◌else◌, arith,
}
use ship_flow_tauri.Prelude.Table.{
  find_where, update_where, contains, find_where-update_where_before,
}
use ship_flow_tauri.Prelude.Outcome.{ok, err}
use ship_flow_tauri.Storage.Tables.{Store, SheetRow}
use ship_flow_tauri.Storage.Rows.Isolation.{row_has_id}
use ship_flow_tauri.Storage.Rows.Lookups.{
  is_interrupted, is_expected, with_row_status, update_sheet_row_status_if_lookup_matches,
}
use ship_flow_tauri.Tracking.Rows.{
  TrackingLookupFailure, TrackingEngineError, TrackingEngineResult, BlobWriter, failed_input,
  read_back, store_failed_tracking_lookup,
}
use ship_flow_tauri.Tracking.Batches.{
  Target, Batch, Happening, Setup, grouped, total_of, start_batch,
}
use ship_flow_tauri.Tracking.Answers.{
  is_unchanged, fail_stored, fail_row, fail_rows, fail_found, fail_target, fail_targets,
  missing_result_error, finish_batch, happen_all, run_batch,
}

abbrev pub in_progress : Target → Option SheetRow → Bool
in_progress target none = false
in_progress target (some row) = is_unchanged target row && is_interrupted row

abbrev IsSettled : Batch → Target → Type 0
IsSettled b target =
    (row : SheetRow)
    → contains target.row_id b.terminal_row_ids ≡ false
    → find_where (row_has_id target.row_id) b.store.sheet_rows ≡ some row
    → is_unchanged target row ≡ true
    → is_interrupted row ≡ false

if-IsSettled :
    (c : Bool) (a b : Batch) (target : Target)
    → IsSettled a target
    → IsSettled b target
    → IsSettled (if c then a else b) target
if-IsSettled true a b target ha hb = ha
if-IsSettled false a b target ha hb = hb

module _ (total_count : ℕ) (failure : TrackingLookupFailure) where
  fail_stored_store :
      (row : SheetRow) (b : Batch) (stored : TrackingEngineResult (Option SheetRow))
      → (fail_stored total_count failure row b stored).store ≡ b.store
  unfolding fail_stored
  fail_stored_store row b (err problem) = refl
  fail_stored_store row b (ok none) = refl
  fail_stored_store row b (ok (some failed)) = refl

  fail_stored_open :
      (row : SheetRow) (b : Batch) (stored : TrackingEngineResult (Option SheetRow)) (id : Text)
      → contains id (fail_stored total_count failure row b stored).terminal_row_ids ≡ false
      → contains id b.terminal_row_ids ≡ false
  unfolding fail_stored contains
  fail_stored_open row b (err problem) id h = ground (arith, h)
  fail_stored_open row b (ok none) id h = h
  fail_stored_open row b (ok (some failed)) id h = ground (arith, h)

  read_back_store :
      (s : Store) (row : SheetRow) (t : Store) (updated : Bool)
      → (read_back s row (ok (t, updated))).1 ≡ t
  unfolding read_back
  read_back_store s row t true = refl
  read_back_store s row t false = refl

  fail_row_rows :
      (b : Batch) (row : SheetRow)
      → (fail_row total_count failure b row).store.sheet_rows
        ≡ update_where
            (is_expected row.row_id row.lookup_tracking_id row.row_generation)
            (with_row_status (failed_input row failure))
            b.store.sheet_rows
  unfolding fail_row store_failed_tracking_lookup update_sheet_row_status_if_lookup_matches
  fail_row_rows b row =
      let (stored, t) = store_failed_tracking_lookup b.store row failure in
      rw (fail_stored_store row (record b { store = t }) stored) (
        let (u, updated) =
          update_sheet_row_status_if_lookup_matches b.store (failed_input row failure)
            row.lookup_tracking_id row.row_generation in
        rw (read_back_store b.store row u updated) refl)

  fail_row_open :
      (b : Batch) (row : SheetRow) (id : Text)
      → contains id (fail_row total_count failure b row).terminal_row_ids ≡ false
      → contains id b.terminal_row_ids ≡ false
  unfolding fail_row
  fail_row_open b row id h =
      let (stored, t) = store_failed_tracking_lookup b.store row failure in
      fail_stored_open row (record b { store = t }) stored id h

  fail_row-IsSettled :
      (b : Batch) (row : SheetRow) (target : Target)
      → IsSettled b target
      → IsSettled (fail_row total_count failure b row) target
  fail_row-IsSettled b row target settled new unreturned found unchanged =
      let expected = is_expected row.row_id row.lookup_tracking_id row.row_generation in
      let (old, before, same) =
        find_where-update_where_before (row_has_id target.row_id) expected
          (with_row_status (failed_input row failure)) b.store.sheet_rows new (λ y. refl)
          (rw (sym (fail_row_rows b row)) found) in
      let earlier = fail_row_open b row target.row_id unreturned in
      elim (Bool-cases (expected old)) [
        | inl hit ↦ ground (arith, same, hit)
        | inr miss ↦
            let e : new ≡ old = ground (arith, same, miss) in
            rw e
              (settled old earlier before (subst (λ x. is_unchanged target x ≡ true) e unchanged))
      ]

  current_fails :
      (b : Batch) (target : Target) (current row : SheetRow)
      → find_where (row_has_id target.row_id) b.store.sheet_rows ≡ some current
      → find_where
          (row_has_id target.row_id)
          (fail_row total_count failure b current).store.sheet_rows
        ≡ some row
      → is_interrupted row ≡ false
  current_fails b target current row was found =
      let expected = is_expected current.row_id current.lookup_tracking_id current.row_generation in
      let (old, before, same) =
        find_where-update_where_before (row_has_id target.row_id) expected
          (with_row_status (failed_input current failure)) b.store.sheet_rows row (λ y. refl)
          (rw (sym (fail_row_rows b current)) found) in
      let e : current ≡ old = ground (arith, was, before) in
      let hit : expected current ≡ true = ground (
        arith,
        text_refl current.row_id,
        text_refl current.lookup_tracking_id,
        text_refl current.row_generation,
      ) in
      let hit_old = subst (λ x. expected x ≡ true) e hit in ground (arith, same, hit_old)

  fail_found-IsSettled :
      (b : Batch) (target : Target) (o : Option SheetRow)
      → find_where (row_has_id target.row_id) b.store.sheet_rows ≡ o
      → IsSettled (fail_found total_count failure b target o) target
  unfolding fail_found
  fail_found-IsSettled b target none absent =
      λ row unreturned found unchanged. ground (arith, absent, found)
  fail_found-IsSettled b target (some current) was =
      elim (Bool-cases (is_unchanged target current && is_interrupted current)) [
        | inl due ↦
            subst (λ c. IsSettled (if c then fail_row total_count failure b current else b) target)
              (sym due)
              (λ row unreturned found unchanged. current_fails b target current row was found)
        | inr idle ↦
            subst (λ c. IsSettled (if c then fail_row total_count failure b current else b) target)
              (sym idle)
              (λ row unreturned found unchanged.
                let e : row ≡ current = ground (arith, was, found) in
                let idle_row =
                  subst (λ x. (is_unchanged target x && is_interrupted x) ≡ false) (sym e) idle in
                ground (arith, unchanged, idle_row))
      ]

  -- The target that a step is about.
  fail_target_itself :
      (b : Batch) (target : Target) → IsSettled (fail_target total_count failure b target) target
  unfolding fail_target
  fail_target_itself b target = elim (Bool-cases (contains target.row_id b.terminal_row_ids)) [
    | inl returned ↦
        subst
          (λ c.
            IsSettled
              (if c
                then b
                else fail_found total_count failure b target
                    (find_where (row_has_id target.row_id) b.store.sheet_rows))
              target)
          (sym returned) (λ row unreturned found unchanged. ground (arith, returned, unreturned))
    | inr missed ↦
        subst
          (λ c.
            IsSettled
              (if c
                then b
                else fail_found total_count failure b target
                    (find_where (row_has_id target.row_id) b.store.sheet_rows))
              target)
          (sym missed) (fail_found-IsSettled b target _ refl)
  ]

  fail_found_keeps :
      (b : Batch) (target other : Target) (o : Option SheetRow)
      → IsSettled b other
      → IsSettled (fail_found total_count failure b target o) other
  unfolding fail_found
  fail_found_keeps b target other none settled = settled
  fail_found_keeps b target other (some current) settled =
      if-IsSettled (is_unchanged target current && is_interrupted current)
        (fail_row total_count failure b current) b other
        (fail_row-IsSettled b current other settled) settled

  fail_target_keeps :
      (b : Batch) (target other : Target)
      → IsSettled b other
      → IsSettled (fail_target total_count failure b target) other
  unfolding fail_target
  fail_target_keeps b target other settled =
      if-IsSettled (contains target.row_id b.terminal_row_ids) b _ other settled
        (fail_found_keeps b target other _ settled)

  fail_targets_keeps :
      (b : Batch) (targets : List Target) (other : Target)
      → IsSettled b other
      → IsSettled (fail_targets total_count failure b targets) other
  unfolding fail_targets
  fail_targets_keeps b [] other settled = settled
  fail_targets_keeps b (target ∷ targets) other settled =
      fail_targets_keeps (fail_target total_count failure b target) targets other
        (fail_target_keeps b target other settled)

  fail_targets-IsSettled :
      (b : Batch) (targets : List Target)
      → All (IsSettled (fail_targets total_count failure b targets)) targets
  unfolding fail_targets
  fail_targets-IsSettled b [] = tt
  fail_targets-IsSettled b (target ∷ targets) =
      let c = fail_target total_count failure b target in
      (
        fail_targets_keeps c targets target (fail_target_itself b target),
        fail_targets-IsSettled c targets,
      )

-- A target that was not returned, and whose row is as it was and in progress.
abbrev pub is_left_over : Batch → Target → Bool
is_left_over b target =
    not (contains target.row_id b.terminal_row_ids)
    && in_progress target (find_where (row_has_id target.row_id) b.store.sheet_rows)

settled_none_left :
    (b : Batch) (target : Target) → IsSettled b target → is_left_over b target ≡ false
settled_none_left b target settled =
    by_row (contains target.row_id b.terminal_row_ids) refl
      (find_where (row_has_id target.row_id) b.store.sheet_rows) refl
  where
    by_row :
        (returned : Bool)
        → contains target.row_id b.terminal_row_ids ≡ returned
        → (o : Option SheetRow) → find_where (row_has_id target.row_id) b.store.sheet_rows ≡ o
        → (not returned && in_progress target o) ≡ false
    by_row true e o found = refl
    by_row false e none found = refl
    by_row false e (some row) found = elim (Bool-cases (is_unchanged target row)) [
      | inl unchanged ↦ ground (arith, settled row e found unchanged)
      | inr changed ↦ ground (arith, changed)
    ]

all_none_left :
    (b : Batch) (targets : List Target)
    → All (IsSettled b) targets
    → All (λ (target : Target). is_left_over b target ≡ false) targets
all_none_left b [] h = tt
all_none_left b (target ∷ targets) h = (settled_none_left b target h.0, all_none_left b targets h.1)

-- When the refresh of many rows is over, whatever answers came, in whatever order, whatever other
-- connections wrote in between and whatever failed, no target row that was not returned and still
-- has the lookup id and the generation that it started with is pending or loading.
pub run_batch_none_left :
    (write : BlobWriter) (display : TrackingEngineError → Text) (setup : Setup)
    (happenings : List Happening) (batch_error : Option TrackingLookupFailure)
    → All
        (λ (target : Target).
          is_left_over (run_batch write display setup happenings batch_error) target ≡ false)
        setup.target_rows
unfolding run_batch finish_batch
run_batch_none_left write display setup happenings batch_error =
    let total_count = total_of setup.rows_by_lookup_id in
    let b = happen_all write total_count (start_batch total_count setup) happenings in
    let failure = missing_result_error display b.storage_error batch_error in
    let started : Batch = record b { rows_by_lookup_id = [] } in
    let c = fail_rows total_count failure started (grouped b.rows_by_lookup_id) in
    all_none_left (fail_targets total_count failure c setup.target_rows) setup.target_rows
      (fail_targets-IsSettled total_count failure c setup.target_rows)
