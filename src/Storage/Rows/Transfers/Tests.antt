-- ===== src/Storage/Rows/Transfers/Tests.antt =====
-- storage.rs: a move of rows on a small store, and the search for a row id.
use ship_flow_tauri.Prelude.{
  Text, bytes, text_beq, true, false, some, none, List, [], ◌++◌, ◌∷◌, ◌≡◌, refl, arith,
}
use ship_flow_tauri.Prelude.Table.{find_where, any, contains, delete_where}
use ship_flow_tauri.Storage.Tables.{Store, SheetRow, SheetRowStatus, ok}
use ship_flow_tauri.Storage.Rows.Isolation.{row_has_id}
use ship_flow_tauri.Storage.Rows.Samples.{row_at, two_sheets, two_sheets-IsKeyed}
use ship_flow_tauri.Storage.Rows.GeneratedIds.{
  next_available_generated_sheet_row_id, next_available_total,
}
use ship_flow_tauri.Storage.Rows.Positions.{max_position_plus_one}
use ship_flow_tauri.Storage.Rows.Positions.Order.{HasUniquePositions}
use ship_flow_tauri.Storage.Rows.{
  UpsertSheetRowInput, upsert_sheet_row_with_mode, upsert_row, owned_elsewhere,
}
use ship_flow_tauri.Storage.Rows.Transfers.Appends.{placed_rows, append_sheet_rows-eq}
use ship_flow_tauri.Storage.Rows.Transfers.{
  append_sheet_rows_atomic, TransferSheetRowsInput, transfer_sheet_rows,
}
use ship_flow_tauri.Storage.Rows.Transfers.Totals.{IsTransferred, transfer_sheet_rows_total}

-- The first candidate is taken, and the one with suffix 1 too.
abbrev generated : List SheetRow
generated =
    row_at (bytes "s:row:12") (bytes "s") 12 (bytes "P1")
    ∷ row_at (bytes "s:row:12:1") (bytes "s") 13 (bytes "P2")
    ∷ []

next_available_total_example :
    (id : Text) × (next_available_generated_sheet_row_id generated (bytes "s") 12 ≡ some id)
    × (any (row_has_id id) generated ≡ false)
next_available_total_example = next_available_total generated (bytes "s") 12 (omega arith)

-- `r1` is moved to the sheet `t`; the second id names no row.
abbrev move : TransferSheetRowsInput
move = record {
  source_sheet_id = bytes "s";
  target_sheet_id = bytes "t";
  row_ids = (bytes " r1 ", bytes "g1") ∷ (bytes "r9", bytes "g2") ∷ [];
  delete_source_rows = true;
}

two_sheets-HasUniquePositions : HasUniquePositions two_sheets.sheet_rows
unfolding text_beq
two_sheets-HasUniquePositions = ((refl, tt), (tt, tt))

transfer_sheet_rows_total_example :
    (t : Store) × (transfer_sheet_rows two_sheets move ≡ ok t) × IsTransferred two_sheets move t
unfolding max_position_plus_one contains text_beq
transfer_sheet_rows_total_example =
    transfer_sheet_rows_total two_sheets move refl refl refl (omega arith) (omega arith)
      two_sheets-HasUniquePositions two_sheets-IsKeyed

abbrev added : Text → UpsertSheetRowInput
added id = record {
  row_id = id;
  sheet_id = bytes "s";
  position = 0;
  display_tracking_id = id;
  lookup_tracking_id = id;
  row_status = SheetRowStatus.pending;
  error_message = none;
}

abbrev two_inputs : List (UpsertSheetRowInput × Text)
two_inputs = (added (bytes "r5"), bytes "g5") ∷ (added (bytes "r6"), bytes "g6") ∷ []

abbrev appended : Store
appended = record two_sheets { sheet_rows = two_sheets.sheet_rows ++ placed_rows 1 two_inputs }

append_runs : append_sheet_rows_atomic two_sheets (bytes "s") two_inputs ≡ ok appended
unfolding append_sheet_rows_atomic upsert_sheet_row_with_mode upsert_row owned_elsewhere
    max_position_plus_one find_where any delete_where contains text_beq
append_runs = refl

append_sheet_rows-eq_example :
    appended.sheet_rows
    ≡ two_sheets.sheet_rows
      ++ placed_rows (max_position_plus_one (bytes "s") two_sheets.sheet_rows) two_inputs
append_sheet_rows-eq_example =
    append_sheet_rows-eq two_sheets (bytes "s") two_inputs appended append_runs
