-- ===== src/Storage/Rows/Lookups/Results.antt =====
-- storage.rs: lookup results that arrive in time, and the rows that a crash left in progress.
use ship_flow_tauri.Prelude.{
  ℕ, ◌+◌, ◌%◌, ◌^◌, bytes, map, ap, ap₂, count, sum_by, nat_beq, if◌then◌else◌, Text, Bool, true,
  false, some, List, [], ◌∷◌, ◌≡◌, refl, ◌==◌, text_eq, text_beq_iff, All, arith,
}
use ship_flow_tauri.Prelude.Table.{
  find_where, any, update_where, All-updated, find_where-update_where, update_where_none,
  count_none, any_none, find_where-update_where_miss, any_none, count_none,
  find_where-update_where_miss, find_where-holds,
}
use ship_flow_tauri.Storage.Tables.{Store, SheetRow, SheetRowStatus, ok}
use ship_flow_tauri.Storage.Rows.Isolation.{row_has_id}
use ship_flow_tauri.Storage.Rows.Lookups.{
  AttachTrackingRecordToSheetRowInput, is_expected, attached, is_interrupted, failed_row,
  record_exists, attach_where, attach_tracking_record_to_sheet_row_if_lookup_matches,
  recover_interrupted_tracking_rows,
}

-- What recovery is to do to a row, by its status.
abbrev pub recovered_as : SheetRowStatus → SheetRow → SheetRow
recovered_as SheetRowStatus.pending row = record row {
  row_status = SheetRowStatus.failed;
  error_message = some (bytes "Tracking was interrupted before completion.");
}
recovered_as SheetRowStatus.loading row = record row {
  row_status = SheetRowStatus.failed;
  error_message = some (bytes "Tracking was interrupted before completion.");
}
recovered_as SheetRowStatus.empty row = row
recovered_as SheetRowStatus.loaded row = row
recovered_as SheetRowStatus.failed row = row
recovered_as SheetRowStatus.stale row = row

abbrev pub recovered_row : SheetRow → SheetRow
recovered_row row = recovered_as row.row_status row

abbrev pub status_code : SheetRowStatus → ℕ
status_code SheetRowStatus.empty = 0
status_code SheetRowStatus.pending = 1
status_code SheetRowStatus.loading = 2
status_code SheetRowStatus.loaded = 3
status_code SheetRowStatus.failed = 4
status_code SheetRowStatus.stale = 5

-- How many rows have a status.
abbrev pub count_status : SheetRowStatus → List SheetRow → ℕ
count_status status rows =
    count (λ (row : SheetRow). nat_beq (status_code row.row_status) (status_code status)) rows

recovered_rows :
    (rows : List SheetRow) → update_where is_interrupted failed_row rows ≡ map recovered_row rows
unfolding update_where
recovered_rows [] = refl
recovered_rows (row ∷ rows) =
    ap₂ (λ x xs. x ∷ xs) (by_status row.row_status row) (recovered_rows rows)
  where
    by_status :
        (status : SheetRowStatus) (x : SheetRow)
        → (if elim status [
          | SheetRowStatus.pending ↦ true
          | SheetRowStatus.loading ↦ true
          | _ ↦ false
        ]
            then failed_row x
            else x)
          ≡ recovered_as status x
    by_status SheetRowStatus.pending x = refl
    by_status SheetRowStatus.loading x = refl
    by_status SheetRowStatus.empty x = refl
    by_status SheetRowStatus.loaded x = refl
    by_status SheetRowStatus.failed x = refl
    by_status SheetRowStatus.stale x = refl

interrupted_count :
    (rows : List SheetRow)
    → count is_interrupted rows
      ≡ count_status SheetRowStatus.pending rows + count_status SheetRowStatus.loading rows
unfolding sum_by
interrupted_count [] = omega arith
interrupted_count (row ∷ rows) = ground (arith, interrupted_count rows)

none_interrupted :
    (rows : List SheetRow)
    → All (λ (row : SheetRow). is_interrupted row ≡ false) rows
    → (count_status SheetRowStatus.pending rows ≡ 0)
      × (count_status SheetRowStatus.loading rows ≡ 0)
none_interrupted rows clean =
    let sum = interrupted_count rows in
    let zero = count_none is_interrupted rows clean in
    (omega (arith, sum, zero), omega (arith, sum, zero))

-- Recovery makes the pending and the loading rows failed, with a message, leaves every other row as
-- it is, and gives back how many there were, as a u32; then no row is pending or loading, and a
-- second recovery changes nothing.
pub recover_rows :
    (s : Store)
    → let (t, changed) = recover_interrupted_tracking_rows s in
      (t.sheet_rows ≡ map recovered_row s.sheet_rows)
      × (changed
          ≡ (count_status SheetRowStatus.pending s.sheet_rows
              + count_status SheetRowStatus.loading s.sheet_rows)
            % 2 ^ 32)
      × (count_status SheetRowStatus.pending t.sheet_rows ≡ 0)
      × (count_status SheetRowStatus.loading t.sheet_rows ≡ 0)
      × (recover_interrupted_tracking_rows t ≡ (t, 0))
unfolding recover_interrupted_tracking_rows
recover_rows s =
    let rows = update_where is_interrupted failed_row s.sheet_rows in
    let clean = All-updated is_interrupted failed_row s.sheet_rows (λ row. refl) in
    let none = any_none is_interrupted rows clean in
    let unchanged = update_where_none is_interrupted failed_row rows none in
    let zero = count_none is_interrupted rows clean in
    let (no_pending, no_loading) = none_interrupted rows clean in
    (
      recovered_rows s.sheet_rows,
      ap (λ n. n % 2 ^ 32) (interrupted_count s.sheet_rows),
      no_pending,
      no_loading,
      rw unchanged (rw zero refl),
    )

any_of_find :
    (p q : SheetRow → Bool) (rows : List SheetRow) (row : SheetRow)
    → find_where q rows ≡ some row
    → p row ≡ true
    → any p rows ≡ true
unfolding find_where any
any_of_find p q [] row h e = ground (arith, h)
any_of_find p q (x ∷ xs) row h e = ground (arith, h, e, any_of_find p q xs row)

-- A result for a row that still has the lookup id and the generation of the lookup is taken, where
-- its record is stored: the row has the record, the status and the message of the result, and
-- every row with another id is as it was.
pub attach_taken :
    (s : Store) (input : AttachTrackingRecordToSheetRowInput) (row : SheetRow)
    → find_where (row_has_id input.row_id) s.sheet_rows ≡ some row
    → record_exists s input.tracking_record_id ≡ true
    → (t : Store) × (attach_tracking_record_to_sheet_row_if_lookup_matches s input
          row.lookup_tracking_id row.row_generation
        ≡ ok (t, true))
      × (find_where (row_has_id input.row_id) t.sheet_rows ≡ some (attached input row))
      × ((other : Text)
          → (input.row_id == other) ≡ false
          → find_where (row_has_id other) t.sheet_rows ≡ find_where (row_has_id other) s.sheet_rows)
unfolding attach_tracking_record_to_sheet_row_if_lookup_matches attach_where
attach_taken s input row found stored =
    let expected = is_expected input.row_id row.lookup_tracking_id row.row_generation in
    let named : row_has_id input.row_id row ≡ true =
      find_where-holds (row_has_id input.row_id) s.sheet_rows row found in
    let matches : expected row ≡ true = ground (
      arith,
      named,
      text_beq_iff row.lookup_tracking_id row.lookup_tracking_id,
      text_beq_iff row.row_generation row.row_generation,
    ) in
    let has : any expected s.sheet_rows ≡ true =
      any_of_find expected (row_has_id input.row_id) s.sheet_rows row found matches in
    (
      record s { sheet_rows = update_where expected (attached input) s.sheet_rows },
      ground (arith, has, stored),
      ground (
        arith,
        find_where-update_where (row_has_id input.row_id) expected (attached input) s.sheet_rows row
            (λ x. refl) found,
        matches,
      ),
      λ other differs.
          find_where-update_where_miss (row_has_id other) expected (attached input) s.sheet_rows
            (λ x. refl)
            (λ x same. ground (
              arith,
              same,
              differs,
              text_beq_iff x.row_id input.row_id,
              text_beq_iff x.row_id other,
              text_beq_iff input.row_id other,
            )),
    )
