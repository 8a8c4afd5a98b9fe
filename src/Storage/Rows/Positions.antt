-- ===== src/Storage/Rows/Positions.antt =====
-- storage.rs: the order of the rows of a sheet, and deletions, after which the rows that stay are
-- numbered again.
pub mod Order
pub mod Compacted
mod Tests
use mathlib.Core.Option
use ship_flow_tauri.Prelude.{
  Option, ℕ, suc, ◌%◌, ◌^◌, max, Text, Bool, true, false, List, [], ◌∷◌, map, ◌==◌, text_eq, nat_eq,
  text_le, ltb, not, ◌&&◌, ◌||◌, filter, if◌then◌else◌,
}
use ship_flow_tauri.Prelude.Table.{find_where, any, update_where, delete_where, sort_by, insert_by}
use ship_flow_tauri.Storage.Tables.{Store, SheetRow, Result, ok, err, ◌>>=◌, constraint}

abbrev pub in_sheet : Text → SheetRow → Bool
in_sheet sheet_id row = row.sheet_id == sheet_id

-- ORDER BY position ASC, id ASC
abbrev pub row_precedes : SheetRow → SheetRow → Bool
row_precedes a b =
    ltb a.position b.position || (a.position == b.position && text_le a.row_id b.row_id)

abbrev pub ordered_rows : Text → List SheetRow → List SheetRow
ordered_rows sheet_id rows = sort_by row_precedes (filter (in_sheet sheet_id) rows)

unfoldable pub list_sheet_row_ids : Store → Text → List Text
list_sheet_row_ids s sheet_id =
    map (λ (row : SheetRow). row.row_id) (ordered_rows sheet_id s.sheet_rows)

-- SELECT id ... WHERE sheet_id = ?1 AND display_tracking_id = ?2 ORDER BY ... LIMIT 1
unfoldable pub sheet_row_id_for_display_tracking_id : Store → Text → Text → Option Text
sheet_row_id_for_display_tracking_id s sheet_id display_tracking_id =
    Option.map (λ (row : SheetRow). row.row_id)
      (find_where (λ (row : SheetRow). row.display_tracking_id == display_tracking_id)
        (ordered_rows sheet_id s.sheet_rows))

-- COALESCE(MAX(position), -1) + 1
unfoldable pub max_position_plus_one : Text → List SheetRow → ℕ
max_position_plus_one sheet_id [] = 0
max_position_plus_one sheet_id (row ∷ rows) =
    let rest = max_position_plus_one sheet_id rows in
    if in_sheet sheet_id row then max (suc row.position) rest else rest

-- The i64 of the query, `as u32`.
unfoldable pub next_sheet_row_position : Store → Text → ℕ
unfolding max_position_plus_one
next_sheet_row_position s sheet_id = max_position_plus_one sheet_id s.sheet_rows % 2 ^ 32

abbrev pub is_row : Text → Text → SheetRow → Bool
is_row sheet_id row_id row = in_sheet sheet_id row && row.row_id == row_id

-- Another row of the sheet is in the way.
abbrev pub is_taken_by : Text → Text → ℕ → SheetRow → Bool
is_taken_by sheet_id row_id position row =
    in_sheet sheet_id row && (row.position == position && not (row.row_id == row_id))

abbrev pub with_position : ℕ → SheetRow → SheetRow
with_position position row = record row { position = position }

-- UPDATE sheet_rows SET position = ?3 WHERE sheet_id = ?1 AND id = ?2, under
-- UNIQUE(sheet_id, position).
unfoldable pub set_position : Text → Text → ℕ → List SheetRow → Result (List SheetRow)
set_position sheet_id row_id position rows =
    if any (is_row sheet_id row_id) rows && any (is_taken_by sheet_id row_id position) rows
    then err constraint
    else ok (update_where (is_row sheet_id row_id) (with_position position) rows)

-- The loop over the ids, with `position as u32`.
unfoldable pub renumber : Text → List Text → ℕ → List SheetRow → Result (List SheetRow)
unfolding set_position
renumber sheet_id [] position rows = ok rows
renumber sheet_id (row_id ∷ row_ids) position rows = do
  updated ← set_position sheet_id row_id (position % 2 ^ 32) rows
  renumber sheet_id row_ids (suc position) updated

unfoldable pub compact_sheet_row_positions : Text → List SheetRow → Result (List SheetRow)
unfolding renumber
compact_sheet_row_positions sheet_id rows =
    renumber sheet_id (map (λ (row : SheetRow). row.row_id) (ordered_rows sheet_id rows)) 0 rows

unfoldable pub delete_ids : Text → List Text → List SheetRow → List SheetRow
delete_ids sheet_id [] rows = rows
delete_ids sheet_id (row_id ∷ row_ids) rows =
    delete_ids sheet_id row_ids (delete_where (is_row sheet_id row_id) rows)

unfoldable pub delete_sheet_rows : Store → Text → List Text → Result Store
unfolding compact_sheet_row_positions delete_ids
delete_sheet_rows s sheet_id [] = ok s
delete_sheet_rows s sheet_id (row_id ∷ row_ids) = do
  rows ← compact_sheet_row_positions sheet_id (delete_ids sheet_id (row_id ∷ row_ids) s.sheet_rows)
  ok (record s { sheet_rows = rows })
