-- ===== src/Storage/Rows/Lookups.antt =====
-- storage.rs: the writes of lookup results to rows, plain and conditional. A conditional write names
-- the lookup id and the generation that its row had when the lookup started.
mod Results
mod Stale
mod Tests
use ship_flow_tauri.Prelude.{
  ℕ, ◌%◌, ◌^◌, Text, bytes, Bool, true, false, Option, none, some, List, [], ◌∷◌, ◌++◌, ◌==◌,
  text_eq, not, ◌&&◌, ◌||◌, if◌then◌else◌, count,
}
use ship_flow_tauri.Prelude.Table.{any, update_where, delete_where, contains}
use ship_flow_tauri.Storage.Tables.{
  blob_exists, Store, SheetRow, SheetRowStatus, TrackingRecord, Result, ok, err, ◌>>=◌, ◌>>◌, guard,
  constraint,
}

pub record AttachTrackingRecordToSheetRowInput : Type 0 where
  pub row_id : Text
  pub tracking_record_id : Text
  pub row_status : SheetRowStatus
  pub error_message : Option Text

pub record UpdateSheetRowStatusInput : Type 0 where
  pub row_id : Text
  pub row_status : SheetRowStatus
  pub error_message : Option Text

-- The foreign key of a row.
abbrev pub record_exists : Store → Text → Bool
record_exists s record_id = any (λ (row : TrackingRecord). row.record_id == record_id) s.records

-- INSERT INTO tracking_records ... ON CONFLICT(id) DO UPDATE
unfoldable pub upsert_tracking_record : Store → TrackingRecord → Result Store
unfolding blob_exists
upsert_tracking_record s input = do
  guard (blob_exists s input.raw_blob_id) constraint
  ok (record s {
    records =
        if record_exists s input.record_id
        then update_where (λ (row : TrackingRecord). row.record_id == input.record_id) (λ _. input)
            s.records
        else s.records ++ (input ∷ []);
  })

-- WHERE id = ?1 AND lookup_tracking_id = ?6 AND row_generation = ?7
abbrev pub is_expected : Text → Text → Text → SheetRow → Bool
is_expected row_id lookup_tracking_id row_generation row =
    row.row_id == row_id
    && (row.lookup_tracking_id == lookup_tracking_id && row.row_generation == row_generation)

abbrev pub attached : AttachTrackingRecordToSheetRowInput → SheetRow → SheetRow
attached input row = record row {
  tracking_record_id = some input.tracking_record_id;
  row_status = input.row_status;
  error_message = input.error_message;
}

abbrev pub with_row_status : UpdateSheetRowStatusInput → SheetRow → SheetRow
with_row_status input row = record row {
  row_status = input.row_status;
  error_message = input.error_message;
}

-- The update of the rows that pass a test, whose foreign key is checked where a row is updated.
unfoldable pub attach_where :
    (SheetRow → Bool) → Store → AttachTrackingRecordToSheetRowInput → Result Store
attach_where p s input = do
  guard (not (any p s.sheet_rows) || record_exists s input.tracking_record_id) constraint
  ok (record s { sheet_rows = update_where p (attached input) s.sheet_rows })

unfoldable pub attach_tracking_record_to_sheet_row :
    Store → AttachTrackingRecordToSheetRowInput → Result Store
unfolding attach_where
attach_tracking_record_to_sheet_row s input =
    attach_where (λ row. row.row_id == input.row_id) s input

unfoldable pub attach_tracking_record_to_sheet_row_if_lookup_matches :
    Store → AttachTrackingRecordToSheetRowInput → Text → Text → Result (Store × Bool)
unfolding attach_where
attach_tracking_record_to_sheet_row_if_lookup_matches s input lookup_tracking_id generation = do
  t ← attach_where (is_expected input.row_id lookup_tracking_id generation) s input
  ok (t, any (is_expected input.row_id lookup_tracking_id generation) s.sheet_rows)

unfoldable pub upsert_tracking_record_and_attach_if_row_matches :
    Store
    → TrackingRecord
    → AttachTrackingRecordToSheetRowInput
    → Text
    → Text
    → Result (Store × Bool)
unfolding upsert_tracking_record attach_where
upsert_tracking_record_and_attach_if_row_matches s input attachment lookup_tracking_id generation =
    let expected = is_expected attachment.row_id lookup_tracking_id generation in
    if not (any expected s.sheet_rows) then ok (s, false) else do
      t ← upsert_tracking_record s input
      u ← attach_where expected t attachment
      ok (if any expected t.sheet_rows then (u, true) else (s, false))

unfoldable pub update_sheet_row_status : Store → UpdateSheetRowStatusInput → Store
update_sheet_row_status s input = record s {
  sheet_rows =
      update_where (λ (row : SheetRow). row.row_id == input.row_id) (with_row_status input)
        s.sheet_rows;
}

unfoldable pub update_sheet_row_status_if_lookup_matches :
    Store → UpdateSheetRowStatusInput → Text → Text → Store × Bool
update_sheet_row_status_if_lookup_matches s input lookup_tracking_id generation =
    let expected = is_expected input.row_id lookup_tracking_id generation in
    (
      record s { sheet_rows = update_where expected (with_row_status input) s.sheet_rows },
      any expected s.sheet_rows,
    )

abbrev pub is_interrupted : SheetRow → Bool
is_interrupted row = elim row.row_status [
  | SheetRowStatus.pending ↦ true
  | SheetRowStatus.loading ↦ true
  | _ ↦ false
]

abbrev pub failed_row : SheetRow → SheetRow
failed_row row = record row {
  row_status = SheetRowStatus.failed;
  error_message = some (bytes "Tracking was interrupted before completion.");
}

-- The number of rows changed, `as u32`.
unfoldable pub recover_interrupted_tracking_rows : Store → Store × ℕ
recover_interrupted_tracking_rows s = (
  record s { sheet_rows = update_where is_interrupted failed_row s.sheet_rows },
  count is_interrupted s.sheet_rows % 2 ^ 32,
)

unfoldable pub clear_sheet_rows : Store → Text → Store
clear_sheet_rows s sheet_id = record s {
  sheet_rows = delete_where (λ (row : SheetRow). row.sheet_id == sheet_id) s.sheet_rows;
}
