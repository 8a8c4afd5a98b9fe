-- ===== src/Storage/Rows/Lookups/Tests.antt =====
-- storage.rs: results of lookups on a small store.
use ship_flow_tauri.Prelude.{
  ◌+◌, ◌%◌, ◌^◌, map, Text, bytes, text_beq, true, false, some, none, [], ◌∷◌, ◌≡◌, refl, ◌==◌,
  text_eq,
}
use ship_flow_tauri.Prelude.Table.{find_where, any, update_where, delete_where, contains}
use ship_flow_tauri.Storage.Tables.{Store, SheetRow, SheetRowStatus, TrackingRecord, ok}
use ship_flow_tauri.Storage.Rows.{
  UpsertSheetRowInput, upsert_sheet_row_with_mode, upsert_all, owned_elsewhere, upsert_row,
}
use ship_flow_tauri.Storage.Rows.Isolation.{row_has_id}
use ship_flow_tauri.Storage.Rows.Samples.{row_at, two_sheets, two_sheets-IsKeyed}
use ship_flow_tauri.Storage.Rows.Lookups.{
  AttachTrackingRecordToSheetRowInput, UpdateSheetRowStatusInput, attached,
  recover_interrupted_tracking_rows, attach_tracking_record_to_sheet_row_if_lookup_matches,
  upsert_tracking_record_and_attach_if_row_matches, update_sheet_row_status_if_lookup_matches,
}
use ship_flow_tauri.Storage.Rows.Lookups.Results.{
  attach_taken, recover_rows, recovered_row, count_status,
}
use ship_flow_tauri.Storage.Rows.Lookups.Stale.{stale_results_dropped}

abbrev tracking_record : TrackingRecord
tracking_record = record {
  record_id = bytes "t1";
  display_tracking_id = bytes "P1";
  lookup_tracking_id = bytes "P1";
  normalized_status = none;
  status_json = bytes "{}";
  detail_json = bytes "{}";
  history_json = bytes "[]";
  raw_blob_id = none;
  source_url = [];
}

abbrev with_record : Store
with_record = record two_sheets { records = tracking_record ∷ [] }

abbrev attachment : AttachTrackingRecordToSheetRowInput
attachment = record {
  row_id = bytes "r1";
  tracking_record_id = bytes "t1";
  row_status = SheetRowStatus.loaded;
  error_message = none;
}

abbrev first_row : SheetRow
first_row = row_at (bytes "r1") (bytes "s") 0 (bytes "P1")

attach_taken_example :
    (t : Store) × (attach_tracking_record_to_sheet_row_if_lookup_matches with_record attachment
        (bytes "P1")
        (bytes "g0")
      ≡ ok (t, true))
    × (find_where (row_has_id (bytes "r1")) t.sheet_rows ≡ some (attached attachment first_row))
    × ((other : Text)
        → (bytes "r1" == other) ≡ false
        → find_where (row_has_id other) t.sheet_rows
          ≡ find_where (row_has_id other) with_record.sheet_rows)
unfolding find_where any text_beq
attach_taken_example = attach_taken with_record attachment first_row refl refl

-- `r1` is edited to look up P9, and then back.
abbrev edit : Text → UpsertSheetRowInput
edit id = record {
  row_id = bytes "r1";
  sheet_id = bytes "s";
  position = 0;
  display_tracking_id = id;
  lookup_tracking_id = id;
  row_status = SheetRowStatus.pending;
  error_message = none;
}

abbrev edited : Text → Text → Store
edited id generation = record with_record {
  sheet_rows =
      record (row_at (bytes "r1") (bytes "s") 0 id) { row_generation = generation }
      ∷ row_at (bytes "r2") (bytes "t") 0 (bytes "P2")
      ∷ [];
}

edit_runs :
    upsert_sheet_row_with_mode with_record (edit (bytes "P9")) (bytes "g1") true
    ≡ ok (edited (bytes "P9") (bytes "g1"))
unfolding upsert_sheet_row_with_mode upsert_row owned_elsewhere find_where any delete_where
    update_where contains text_beq
edit_runs = refl

edit_back_runs :
    upsert_all (edited (bytes "P9") (bytes "g1")) ((edit (bytes "P1"), bytes "g2") ∷ []) true
    ≡ ok (edited (bytes "P1") (bytes "g2"))
unfolding upsert_all upsert_sheet_row_with_mode upsert_row owned_elsewhere find_where any
    delete_where update_where contains text_beq
edit_back_runs = refl

abbrev status_update : UpdateSheetRowStatusInput
status_update = record {
  row_id = bytes "r1";
  row_status = SheetRowStatus.failed;
  error_message = none;
}

stale_results_dropped_example :
    (attach_tracking_record_to_sheet_row_if_lookup_matches
        (edited (bytes "P1") (bytes "g2"))
        attachment
        (bytes "P1")
        (bytes "g0")
      ≡ ok (edited (bytes "P1") (bytes "g2"), false))
    × (upsert_tracking_record_and_attach_if_row_matches
          (edited (bytes "P1") (bytes "g2"))
          tracking_record
          attachment
          (bytes "P1")
          (bytes "g0")
        ≡ ok (edited (bytes "P1") (bytes "g2"), false))
    × (update_sheet_row_status_if_lookup_matches
          (edited (bytes "P1") (bytes "g2"))
          status_update
          (bytes "P1")
          (bytes "g0")
        ≡ (edited (bytes "P1") (bytes "g2"), false))
unfolding find_where text_beq
stale_results_dropped_example =
    stale_results_dropped with_record (edit (bytes "P9")) (bytes "g1") true
      (edited (bytes "P9") (bytes "g1")) ((edit (bytes "P1"), bytes "g2") ∷ []) true
      (edited (bytes "P1") (bytes "g2")) first_row tracking_record attachment status_update
      two_sheets-IsKeyed refl refl refl (refl, tt) edit_runs edit_back_runs refl refl

recover_rows_example :
    let (t, changed) = recover_interrupted_tracking_rows two_sheets in
    (t.sheet_rows ≡ map recovered_row two_sheets.sheet_rows)
    × (changed
        ≡ (count_status SheetRowStatus.pending two_sheets.sheet_rows
            + count_status SheetRowStatus.loading two_sheets.sheet_rows)
          % 2 ^ 32)
    × (count_status SheetRowStatus.pending t.sheet_rows ≡ 0)
    × (count_status SheetRowStatus.loading t.sheet_rows ≡ 0)
    × (recover_interrupted_tracking_rows t ≡ (t, 0))
recover_rows_example = recover_rows two_sheets
