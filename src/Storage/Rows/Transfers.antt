-- ===== src/Storage/Rows/Transfers.antt =====
-- storage.rs: rows added at the end of a sheet, and rows copied or moved to another sheet. Each new
-- row comes with its generation.
mod Appends
mod Named
mod Copies
mod Totals
mod Tests
use ship_flow_tauri.Prelude.{
  ℕ, suc, ◌+◌, ◌%◌, ◌^◌, min, Text, bytes, Bool, true, false, Option, none, some, List, [], ◌∷◌,
  ◌++◌, map, ◌==◌, text_eq, nat_eq, leb, not, ◌&&◌, ◌||◌, if◌then◌else◌, count, length, u32_max,
}
use ship_flow_tauri.Prelude.Decimal.{decimal}
use ship_flow_tauri.Prelude.Trim.{trim}
use ship_flow_tauri.Prelude.Table.{find_where, any, contains}
use ship_flow_tauri.Storage.Tables.{
  Store, SheetRow, Result, ok, err, ◌>>=◌, ◌>>◌, guard, or_fail, constraint, invalid_value,
  out_of_range, endless,
}
use ship_flow_tauri.Storage.Rows.{UpsertSheetRowInput, upsert_sheet_row_with_mode}
use ship_flow_tauri.Storage.Rows.Isolation.{row_has_id}
use ship_flow_tauri.Storage.Rows.GeneratedIds.{next_available_generated_sheet_row_id}
use ship_flow_tauri.Storage.Rows.Positions.{
  in_sheet, is_row, max_position_plus_one, next_sheet_row_position, list_sheet_row_ids, delete_ids,
  compact_sheet_row_positions,
}

unfoldable append_all : Store → Text → ℕ → ℕ → List (UpsertSheetRowInput × Text) → Result Store
unfolding upsert_sheet_row_with_mode decimal
append_all s sheet_id start index [] = ok s
append_all s sheet_id start index ((input, generation) ∷ rest) = do
  guard (input.sheet_id == sheet_id && not (any (row_has_id input.row_id) s.sheet_rows))
      (invalid_value (bytes "append_row") input.row_id)
  guard (leb index u32_max && leb (start + index) u32_max)
      (invalid_value (bytes "append_position") (decimal index))
  t ← upsert_sheet_row_with_mode s (record input { position = start + index }) generation false
  append_all t sheet_id start (suc index) rest

-- The query reads its result as a u32.
unfoldable pub append_sheet_rows_atomic :
    Store → Text → List (UpsertSheetRowInput × Text) → Result Store
unfolding append_all max_position_plus_one
append_sheet_rows_atomic s sheet_id inputs = do
  guard (leb (max_position_plus_one sheet_id s.sheet_rows) u32_max) out_of_range
  append_all s sheet_id (max_position_plus_one sheet_id s.sheet_rows) 0 inputs

unfoldable pub sheet_has_display_tracking_id : Store → Text → Text → Bool
sheet_has_display_tracking_id s sheet_id display_tracking_id = not (
    count
      (λ (row : SheetRow). in_sheet sheet_id row && row.display_tracking_id == display_tracking_id)
      s.sheet_rows
    == 0)

pub record TransferSheetRowsInput : Type 0 where
  pub source_sheet_id : Text
  pub target_sheet_id : Text
  pub row_ids : List (Text × Text)
  pub delete_source_rows : Bool

-- The variables of the loop, with the table.
pub record Transfer : Type 0 where
  pub rows : List SheetRow
  pub next_position : ℕ
  pub copied_source_row_ids : List Text
  pub seen_source_row_ids : List Text

abbrev pub copied_row : SheetRow → Text → Text → ℕ → Text → SheetRow
copied_row row row_id sheet_id position generation = record row {
  row_id = row_id;
  sheet_id = sheet_id;
  position = position;
  row_generation = generation;
}

-- INSERT INTO sheet_rows: the foreign key, the primary key and UNIQUE(sheet_id, position).
unfoldable pub insert_row : List Text → SheetRow → List SheetRow → Result (List SheetRow)
insert_row sheet_ids row rows = do
  guard (contains row.sheet_id sheet_ids) constraint
  guard
      (not (
        any (row_has_id row.row_id) rows
        || any (λ other. in_sheet row.sheet_id other && other.position == row.position) rows))
      constraint
  ok (rows ++ (row ∷ []))

-- The copy of a row that was found.
unfoldable pub copy_row : List Text → Text → Text → Text → SheetRow → Transfer → Result Transfer
unfolding insert_row next_available_generated_sheet_row_id
copy_row sheet_ids target source_row_id generation row st = do
  target_row_id ←
      or_fail (next_available_generated_sheet_row_id st.rows target st.next_position) endless
  rows ←
      insert_row sheet_ids (copied_row row target_row_id target st.next_position generation) st.rows
  ok (record st {
    rows = rows;
    copied_source_row_ids = st.copied_source_row_ids ++ (source_row_id ∷ []);
    next_position = min (st.next_position + 1) u32_max;
  })

-- One turn of the loop.
unfoldable pub transfer_row : List Text → Text → Text → Text → Text → Transfer → Result Transfer
unfolding copy_row trim
transfer_row sheet_ids source target given generation st =
    let source_row_id = trim given in
    let seen = record st { seen_source_row_ids = source_row_id ∷ st.seen_source_row_ids } in
    if source_row_id == [] || contains source_row_id st.seen_source_row_ids
    then ok st
    else elim (find_where (is_row source source_row_id) st.rows) [
      | none ↦ ok seen
      | some row ↦ copy_row sheet_ids target source_row_id generation row seen
    ]

unfoldable pub transfer_rows :
    List Text → Text → Text → List (Text × Text) → Transfer → Result Transfer
unfolding transfer_row
transfer_rows sheet_ids source target [] st = ok st
transfer_rows sheet_ids source target ((given, generation) ∷ rest) st = do
  later ← transfer_row sheet_ids source target given generation st
  transfer_rows sheet_ids source target rest later

-- The end of the loop: a move deletes the copied rows.
unfoldable pub settle_rows : Text → Bool → Transfer → Result (List SheetRow)
unfolding delete_ids compact_sheet_row_positions
settle_rows source delete_source_rows st =
    if delete_source_rows
    then compact_sheet_row_positions source (delete_ids source st.copied_source_row_ids st.rows)
    else ok st.rows

abbrev pub is_empty_list {ℓ} : {A : Type ℓ} → List A → Bool
is_empty_list [] = true
is_empty_list (x ∷ xs) = false

unfoldable pub transfer_sheet_rows : Store → TransferSheetRowsInput → Result Store
unfolding transfer_rows settle_rows next_sheet_row_position
transfer_sheet_rows s input =
    if is_empty_list input.row_ids || input.source_sheet_id == input.target_sheet_id
    then ok s
    else do
      st ←
          transfer_rows s.sheet_ids input.source_sheet_id input.target_sheet_id input.row_ids
            (record {
              rows = s.sheet_rows;
              next_position = next_sheet_row_position s input.target_sheet_id;
              copied_source_row_ids = [];
              seen_source_row_ids = [];
            })
      rows ← settle_rows input.source_sheet_id input.delete_source_rows st
      ok (record s { sheet_rows = rows })

-- `generation` gives each copy its generation.
unfoldable pub copy_sheet_rows : Store → Text → Text → (Text → Text) → Result Store
unfolding list_sheet_row_ids transfer_sheet_rows
copy_sheet_rows s source target generation = transfer_sheet_rows s (record {
  source_sheet_id = source;
  target_sheet_id = target;
  row_ids = map (λ row_id. (row_id, generation row_id)) (list_sheet_row_ids s source);
  delete_source_rows = false;
})
