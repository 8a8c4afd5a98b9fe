-- ===== src/Storage/Rows/Samples.antt =====
-- storage.rs: a small store of two sheets, for the tests.
use ship_flow_tauri.Prelude.{ℕ, Text, bytes, text_beq, none, [], ◌∷◌, refl}
use ship_flow_tauri.Prelude.Table.{find_where}
use ship_flow_tauri.Storage.Tables.{Store, SheetRow, SheetRowStatus}
use ship_flow_tauri.Storage.Rows.Isolation.{IsKeyed}

abbrev pub row_at : Text → Text → ℕ → Text → SheetRow
row_at id sheet_id position tracking_id = record {
  row_id = id;
  sheet_id = sheet_id;
  position = position;
  display_tracking_id = tracking_id;
  lookup_tracking_id = tracking_id;
  row_generation = bytes "g0";
  tracking_record_id = none;
  row_status = SheetRowStatus.pending;
  error_message = none;
}

abbrev pub two_sheets : Store
two_sheets = record {
  sheet_ids = bytes "s" ∷ bytes "t" ∷ [];
  blob_ids = [];
  sheet_rows =
      row_at (bytes "r1") (bytes "s") 0 (bytes "P1")
      ∷ row_at (bytes "r2") (bytes "t") 0 (bytes "P2")
      ∷ [];
  records = [];
  jobs = [];
  items = [];
  attempts = [];
}

pub two_sheets-IsKeyed : IsKeyed two_sheets.sheet_rows
unfolding find_where text_beq
two_sheets-IsKeyed = (refl, (refl, tt))
