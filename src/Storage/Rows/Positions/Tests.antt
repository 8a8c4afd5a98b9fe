-- ===== src/Storage/Rows/Positions/Tests.antt =====
-- storage.rs: a deletion on a small store.
use ship_flow_tauri.Prelude.{bytes, text_beq, [], ◌∷◌, ◌≡◌, refl, All, arith}
use ship_flow_tauri.Prelude.Table.{find_where}
use ship_flow_tauri.Storage.Tables.{Store, ok}
use ship_flow_tauri.Storage.Rows.Isolation.{IsKeyed, IsIsolated}
use ship_flow_tauri.Storage.Rows.Samples.{row_at, two_sheets}
use ship_flow_tauri.Storage.Rows.Positions.{delete_ids, delete_sheet_rows, list_sheet_row_ids}
use ship_flow_tauri.Storage.Rows.Positions.Order.{HasUniquePositions}
use ship_flow_tauri.Storage.Rows.Positions.Compacted.{IsPlaced, delete_sheet_rows_total}

-- Three rows of `s`, not in the order of their positions, and one of `t`.
abbrev three_rows : Store
three_rows = record two_sheets {
  sheet_rows =
      row_at (bytes "r1") (bytes "s") 4 (bytes "P1")
      ∷ row_at (bytes "r2") (bytes "t") 0 (bytes "P2")
      ∷ row_at (bytes "r3") (bytes "s") 2 (bytes "P3")
      ∷ row_at (bytes "r4") (bytes "s") 0 (bytes "P4")
      ∷ [];
}

three_rows-IsKeyed : IsKeyed three_rows.sheet_rows
unfolding find_where text_beq
three_rows-IsKeyed = (refl, (refl, (refl, (refl, tt))))

three_rows-HasUniquePositions : HasUniquePositions three_rows.sheet_rows
unfolding text_beq
three_rows-HasUniquePositions =
    ((refl, (refl, (refl, tt))), ((refl, (refl, tt)), ((refl, tt), (tt, tt))))

delete_sheet_rows_total_example :
    (t : Store) × (delete_sheet_rows three_rows (bytes "s") (bytes "r4" ∷ []) ≡ ok t)
    × All
        (IsPlaced (bytes "s") (
          list_sheet_row_ids
            (record three_rows {
              sheet_rows = delete_ids (bytes "s") (bytes "r4" ∷ []) three_rows.sheet_rows;
            })
            (bytes "s")))
        t.sheet_rows
    × IsIsolated (bytes "s") three_rows.sheet_rows t.sheet_rows
delete_sheet_rows_total_example =
    delete_sheet_rows_total three_rows (bytes "s") (bytes "r4") [] (omega arith)
      three_rows-HasUniquePositions three_rows-IsKeyed
