-- ===== src/Storage/Rows/Tests.antt =====
-- storage.rs: a batch of rows on a small store.
use ship_flow_tauri.Prelude.{bytes, text_beq, true, false, none, [], ◌∷◌, ◌≡◌, refl}
use ship_flow_tauri.Prelude.Table.{find_where, any, delete_where, contains}
use ship_flow_tauri.Storage.Tables.{Store, SheetRowStatus, ok}
use ship_flow_tauri.Storage.Rows.{
  UpsertSheetRowInput, upsert_sheet_row_with_mode, upsert_all, upsert_sheet_rows_with_mode,
  owned_elsewhere, upsert_row,
}
use ship_flow_tauri.Storage.Rows.Isolation.{IsIsolated}
use ship_flow_tauri.Storage.Rows.Samples.{row_at, two_sheets, two_sheets-IsKeyed}
use ship_flow_tauri.Storage.Rows.Batches.{upsert_sheet_rows-IsIsolated}

-- A new row takes the position of `r1`.
abbrev input : UpsertSheetRowInput
input = record {
  row_id = bytes "r3";
  sheet_id = bytes "s";
  position = 0;
  display_tracking_id = bytes "P3";
  lookup_tracking_id = bytes "P3";
  row_status = SheetRowStatus.pending;
  error_message = none;
}

abbrev displaced : Store
displaced = record two_sheets {
  sheet_rows =
      row_at (bytes "r2") (bytes "t") 0 (bytes "P2")
      ∷ record (row_at (bytes "r3") (bytes "s") 0 (bytes "P3")) { row_generation = bytes "g1" }
      ∷ [];
}

batch_runs :
    upsert_sheet_rows_with_mode two_sheets (bytes "s") ((input, bytes "g1") ∷ []) false true
    ≡ ok displaced
unfolding upsert_sheet_rows_with_mode upsert_all upsert_sheet_row_with_mode upsert_row
    owned_elsewhere find_where any delete_where contains text_beq
batch_runs = refl

upsert_sheet_rows-IsIsolated_example :
    IsIsolated (bytes "s") two_sheets.sheet_rows displaced.sheet_rows
upsert_sheet_rows-IsIsolated_example =
    upsert_sheet_rows-IsIsolated two_sheets (bytes "s") ((input, bytes "g1") ∷ []) false true
      displaced batch_runs two_sheets-IsKeyed
