-- ===== src/Storage/Rows.antt =====
-- storage.rs: writing sheet rows. A row belongs to one sheet, and takes its position from another.
pub mod Isolation
pub mod GeneratedIds
pub mod Batches
pub mod Lookups
pub mod Positions
pub mod Transfers
pub mod Samples
mod Tests
use ship_flow_tauri.Prelude.{
  ℕ, Text, bytes, Bool, true, false, Option, none, some, List, [], ◌∷◌, ◌++◌, ◌==◌, text_eq, nat_eq,
  not, ◌&&◌, if◌then◌else◌,
}
use ship_flow_tauri.Prelude.Table.{find_where, any, update_where, delete_where, contains}
use ship_flow_tauri.Storage.Tables.{
  Store, SheetRow, SheetRowStatus, Result, ok, err, ◌>>=◌, ◌>>◌, guard, row_ownership_conflict,
  constraint, invalid_value,
}

pub record UpsertSheetRowInput : Type 0 where
  pub row_id : Text
  pub sheet_id : Text
  pub position : ℕ
  pub display_tracking_id : Text
  pub lookup_tracking_id : Text
  pub row_status : SheetRowStatus
  pub error_message : Option Text

-- The row that `INSERT` adds.
abbrev pub inserted_row : UpsertSheetRowInput → Text → SheetRow
inserted_row input generation = record {
  row_id = input.row_id;
  sheet_id = input.sheet_id;
  position = input.position;
  display_tracking_id = input.display_tracking_id;
  lookup_tracking_id = input.lookup_tracking_id;
  row_generation = generation;
  tracking_record_id = none;
  row_status = input.row_status;
  error_message = input.error_message;
}

-- `ON CONFLICT(id) DO UPDATE`: a row whose lookup id changes loses its record and gets a new
-- generation; with `preserve` a row that keeps it keeps its status and message.
abbrev pub updated_row : UpsertSheetRowInput → Text → Bool → SheetRow → SheetRow
updated_row input generation preserve row =
    let same = row.lookup_tracking_id == input.lookup_tracking_id in
    record row {
      position = input.position;
      display_tracking_id = input.display_tracking_id;
      tracking_record_id = if same then row.tracking_record_id else none;
      lookup_tracking_id = input.lookup_tracking_id;
      row_generation = if same then row.row_generation else generation;
      row_status = if preserve && same then row.row_status else input.row_status;
      error_message = if preserve && same then row.error_message else input.error_message;
    }

owned_elsewhere : Option SheetRow → UpsertSheetRowInput → Result (Unit {0})
owned_elsewhere none input = ok tt
owned_elsewhere (some row) input =
    guard (row.sheet_id == input.sheet_id)
      (row_ownership_conflict input.row_id row.sheet_id input.sheet_id)

-- DELETE FROM sheet_rows WHERE sheet_id = ?1 AND position = ?2 AND id <> ?3
abbrev pub displaces : UpsertSheetRowInput → SheetRow → Bool
displaces input row =
    row.sheet_id == input.sheet_id
    && (row.position == input.position && not (row.row_id == input.row_id))

upsert_row : UpsertSheetRowInput → Text → Bool → List SheetRow → List SheetRow
upsert_row input generation preserve rows =
    if any (λ (row : SheetRow). row.row_id == input.row_id) rows
    then update_where (λ row. row.row_id == input.row_id) (updated_row input generation preserve)
        rows
    else rows ++ (inserted_row input generation ∷ [])

unfoldable pub upsert_sheet_row_with_mode : Store → UpsertSheetRowInput → Text → Bool → Result Store
unfolding owned_elsewhere upsert_row
upsert_sheet_row_with_mode s input generation preserve = do
  owned_elsewhere (find_where (λ (row : SheetRow). row.row_id == input.row_id) s.sheet_rows) input
  guard (contains input.sheet_id s.sheet_ids) constraint
  ok (record s {
    sheet_rows = upsert_row input generation preserve (delete_where (displaces input) s.sheet_rows);
  })

-- Each row comes with the generation that it is given if it is new.
unfoldable pub upsert_all : Store → List (UpsertSheetRowInput × Text) → Bool → Result Store
upsert_all s [] preserve = ok s
upsert_all s ((input, generation) ∷ rest) preserve = do
  t ← upsert_sheet_row_with_mode s input generation preserve
  upsert_all t rest preserve

-- The batch of one sheet, in one transaction.
unfoldable pub upsert_sheet_rows_with_mode :
    Store → Text → List (UpsertSheetRowInput × Text) → Bool → Bool → Result Store
upsert_sheet_rows_with_mode s sheet_id inputs replace_existing preserve =
    let cleared : Store =
      if replace_existing
      then record s { sheet_rows = delete_where (λ row. row.sheet_id == sheet_id) s.sheet_rows }
      else s in
    if any (λ (input : UpsertSheetRowInput × Text). not (input.0.sheet_id == sheet_id)) inputs
    then err (invalid_value (bytes "sheet_row_sheet_id") sheet_id)
    else upsert_all cleared inputs preserve

unfoldable pub upsert_sheet_rows_atomic :
    Store → Text → List (UpsertSheetRowInput × Text) → Bool → Result Store
unfolding upsert_sheet_rows_with_mode
upsert_sheet_rows_atomic s sheet_id inputs replace_existing =
    upsert_sheet_rows_with_mode s sheet_id inputs replace_existing false

unfoldable pub edit_sheet_rows_atomic :
    Store → Text → List (UpsertSheetRowInput × Text) → Bool → Result Store
unfolding upsert_sheet_rows_with_mode
edit_sheet_rows_atomic s sheet_id inputs replace_existing =
    upsert_sheet_rows_with_mode s sheet_id inputs replace_existing true
