-- ===== src/Storage/Rows/Lookups/Stale.antt =====
-- storage.rs: lookup results for a row whose tracking id has changed since.
use ship_flow_tauri.Prelude.{
  Text, Bool, true, false, some, List, [], ◌∷◌, ◌≡◌, sym, ◌==◌, text_eq, text_beq_iff, All,
  Bool-cases, inl, inr, arith,
}
use ship_flow_tauri.Prelude.Table.{
  find_where, any, delete_where, contains, any_none, All-none, update_where_none, All-append,
  All-map, All-update_where, All-update_where_cases,
}
use ship_flow_tauri.Storage.Tables.{Store, SheetRow, TrackingRecord, ok, >>=-eq-ok, guard->>-eq-ok}
use ship_flow_tauri.Storage.Rows.{
  UpsertSheetRowInput, inserted_row, updated_row, owned_elsewhere, displaces, upsert_row,
  upsert_sheet_row_with_mode, upsert_all,
}
use ship_flow_tauri.Storage.Rows.Isolation.{row_has_id, IsKeyed, All-delete_where}
use ship_flow_tauri.Storage.Rows.Lookups.{
  AttachTrackingRecordToSheetRowInput, UpdateSheetRowStatusInput, is_expected, attached,
  with_row_status, attach_where, attach_tracking_record_to_sheet_row_if_lookup_matches,
  upsert_tracking_record_and_attach_if_row_matches, update_sheet_row_status_if_lookup_matches,
}

-- No row is the one that a result was looked up for.
module _ (row_id lookup_tracking_id row_generation : Text) where
  abbrev IsStale : SheetRow → Type 0
  IsStale row = is_expected row_id lookup_tracking_id row_generation row ≡ false

  updated_row-IsStale :
      (input : UpsertSheetRowInput) (generation : Text) (preserve : Bool) (row : SheetRow)
      → (generation == row_generation) ≡ false
      → IsStale row
      → IsStale (updated_row input generation preserve row)
  updated_row-IsStale input generation preserve row new stale =
      ground (arith, new, stale, text_beq_iff row.lookup_tracking_id input.lookup_tracking_id)

  upsert_row-IsStale :
      (input : UpsertSheetRowInput) (generation : Text) (preserve : Bool) (rows : List SheetRow)
      → (generation == row_generation) ≡ false
      → All IsStale rows
      → All IsStale (upsert_row input generation preserve rows)
  unfolding upsert_row
  upsert_row-IsStale input generation preserve rows new stale =
      elim (Bool-cases (any (row_has_id input.row_id) rows)) [
        | inl old ↦ rw old (
            All-update_where IsStale (row_has_id input.row_id)
              (updated_row input generation preserve) rows
              (λ row. updated_row-IsStale input generation preserve row new) stale)
        | inr fresh ↦ rw fresh (
            All-append IsStale rows (inserted_row input generation ∷ []) stale
              (ground (arith, new), tt))
      ]

  -- The rows of an upsert that succeeds.
  upserted_rows :
      (s : Store) (input : UpsertSheetRowInput) (generation : Text) (preserve : Bool) (t : Store)
      → upsert_sheet_row_with_mode s input generation preserve ≡ ok t
      → t.sheet_rows
        ≡ upsert_row input generation preserve (delete_where (displaces input) s.sheet_rows)
  unfolding upsert_sheet_row_with_mode
  upserted_rows s input generation preserve t h =
      let (_, _, h1) =
        >>=-eq-ok (owned_elsewhere (find_where (row_has_id input.row_id) s.sheet_rows) input) _ h in
      let (_, h2) = guard->>-eq-ok (contains input.sheet_id s.sheet_ids) _ h1 in ground (arith, h2)

  upsert_all-IsStale :
      (s : Store) (inputs : List (UpsertSheetRowInput × Text)) (preserve : Bool) (t : Store)
      → upsert_all s inputs preserve ≡ ok t
      → All (λ (input : UpsertSheetRowInput × Text). (input.1 == row_generation) ≡ false) inputs
      → All IsStale s.sheet_rows
      → All IsStale t.sheet_rows
  unfolding upsert_all
  upsert_all-IsStale s [] preserve t h new stale =
      let e : s ≡ t = ground (arith, h) in rw (sym e) stale
  upsert_all-IsStale s ((input, generation) ∷ rest) preserve t h new stale =
      let (u, first, h1) = >>=-eq-ok (upsert_sheet_row_with_mode s input generation preserve) _ h in
      upsert_all-IsStale u rest preserve t h1 new.1 (
        rw (upserted_rows s input generation preserve u first) (
          upsert_row-IsStale input generation preserve (delete_where (displaces input) s.sheet_rows)
            new.0 (All-delete_where IsStale (displaces input) s.sheet_rows stale)))

-- An upsert that changes the lookup id of a row makes the results of its earlier lookups stale.
changed-IsStale :
    (input : UpsertSheetRowInput) (generation : Text) (preserve : Bool) (rows : List SheetRow)
    (row : SheetRow)
    → IsKeyed rows
    → find_where (row_has_id input.row_id) rows ≡ some row
    → (row.lookup_tracking_id == input.lookup_tracking_id) ≡ false
    → (generation == row.row_generation) ≡ false
    → All
        (IsStale input.row_id row.lookup_tracking_id row.row_generation)
        (upsert_row input generation preserve (delete_where (displaces input) rows))
unfolding upsert_row
changed-IsStale input generation preserve rows row keyed found changed new =
    let kept = delete_where (displaces input) rows in
    let only : All (λ (x : SheetRow). row_has_id input.row_id x ≡ true → x ≡ row) kept =
      All-delete_where _ (displaces input) rows (
        All-map _ (λ (x : SheetRow). row_has_id input.row_id x ≡ true → x ≡ row) rows
          (λ x own same.
            let e : x.row_id ≡ input.row_id = (text_beq_iff x.row_id input.row_id).0 same in
            ground (arith, own, found, e))
          keyed) in
    elim (Bool-cases (any (row_has_id input.row_id) kept)) [
      | inl old ↦ rw old (
          All-update_where_cases _ (IsStale input.row_id row.lookup_tracking_id row.row_generation)
            (row_has_id input.row_id) (updated_row input generation preserve) kept
            (λ x is_row same. rw (is_row same) (ground (arith, changed, new)))
            (λ x is_row other. ground (arith, other)) only)
      | inr fresh ↦ rw fresh (
          All-append (IsStale input.row_id row.lookup_tracking_id row.row_generation) kept
            (inserted_row input generation ∷ [])
            (All-map _ _ kept (λ x other. ground (arith, other))
              (All-none (row_has_id input.row_id) kept fresh))
            (ground (arith, new), tt))
    ]

-- After the lookup id of a row was changed, a result of a lookup that started before is dropped by
-- all three conditional writes, whatever rows are written in between, also where the row has its
-- old lookup id again, where the generations that are given are new.
pub stale_results_dropped :
    (s : Store) (input : UpsertSheetRowInput) (generation : Text) (preserve : Bool) (t : Store)
    (later : List (UpsertSheetRowInput × Text)) (mode : Bool) (u : Store) (row : SheetRow)
    (record_row : TrackingRecord) (attachment : AttachTrackingRecordToSheetRowInput)
    (update : UpdateSheetRowStatusInput)
    → IsKeyed s.sheet_rows
    → find_where (row_has_id input.row_id) s.sheet_rows ≡ some row
    → (row.lookup_tracking_id == input.lookup_tracking_id) ≡ false
    → (generation == row.row_generation) ≡ false
    → All (λ (next : UpsertSheetRowInput × Text). (next.1 == row.row_generation) ≡ false) later
    → upsert_sheet_row_with_mode s input generation preserve ≡ ok t
    → upsert_all t later mode ≡ ok u
    → attachment.row_id ≡ input.row_id
    → update.row_id ≡ input.row_id
    → (attach_tracking_record_to_sheet_row_if_lookup_matches u attachment row.lookup_tracking_id
          row.row_generation
        ≡ ok (u, false))
      × (upsert_tracking_record_and_attach_if_row_matches u record_row attachment
            row.lookup_tracking_id row.row_generation
          ≡ ok (u, false))
      × (update_sheet_row_status_if_lookup_matches u update row.lookup_tracking_id
            row.row_generation
          ≡ (u, false))
unfolding attach_tracking_record_to_sheet_row_if_lookup_matches attach_where
    upsert_tracking_record_and_attach_if_row_matches update_sheet_row_status_if_lookup_matches
stale_results_dropped s input generation preserve t later mode u row record_row attachment update
      keyed found changed new news first rest same_row same_update =
    let expected = is_expected input.row_id row.lookup_tracking_id row.row_generation in
    let stale =
      upsert_all-IsStale input.row_id row.lookup_tracking_id row.row_generation t later mode u rest
        news
        (rw
          (upserted_rows input.row_id row.lookup_tracking_id row.row_generation s input generation
            preserve t first)
          (changed-IsStale input generation preserve s.sheet_rows row keyed found changed new)) in
    let none : any expected u.sheet_rows ≡ false = any_none expected u.sheet_rows stale in
    let kept = update_where_none expected (attached attachment) u.sheet_rows none in
    let unchanged = update_where_none expected (with_row_status update) u.sheet_rows none in
    rw same_row (rw same_update (ground (arith, none, kept, unchanged)))
