-- ===== src/Storage/Rows/Transfers/Appends.antt =====
-- storage.rs: rows added at the end of a sheet.
use ship_flow_tauri.Prelude.{
  ℕ, suc, ◌+◌, ◌<◌, Text, true, false, List, [], ◌∷◌, ◌++◌, ◌≡◌, sym, subst, ap, ◌∙◌, ◌==◌, text_eq,
  nat_eq, text_beq_iff, leb, not, ◌&&◌, All, arith, u32_max, append-nil, append_assoc,
}
use ship_flow_tauri.Prelude.Table.{
  find_where, any, contains, delete_where, delete_where_none, All-append, All-map,
}
use ship_flow_tauri.Storage.Tables.{Store, SheetRow, ok, >>=-eq-ok, guard->>-eq-ok, out_of_range}
use ship_flow_tauri.Storage.Rows.{
  UpsertSheetRowInput, inserted_row, owned_elsewhere, displaces, upsert_row,
  upsert_sheet_row_with_mode,
}
use ship_flow_tauri.Storage.Rows.Isolation.{row_has_id}
use ship_flow_tauri.Storage.Rows.Positions.{in_sheet, max_position_plus_one}
use ship_flow_tauri.Storage.Rows.Transfers.{append_all, append_sheet_rows_atomic}
use ship_flow_tauri.Storage.Rows.Transfers.Totals.{below_next}

-- The rows of the inputs at the positions from the first on.
abbrev pub placed_rows : ℕ → List (UpsertSheetRowInput × Text) → List SheetRow
placed_rows position [] = []
placed_rows position ((input, generation) ∷ rest) =
    inserted_row (record input { position = position }) generation ∷ placed_rows (suc position) rest

abbrev IsBelow : Text → ℕ → SheetRow → Type 0
IsBelow sheet_id position row = in_sheet sheet_id row ≡ true → row.position < position

-- An upsert of a new id at a position after those of its sheet adds its row.
upsert_adds :
    (s : Store) (input : UpsertSheetRowInput) (generation : Text) (t : Store)
    → any (row_has_id input.row_id) s.sheet_rows ≡ false
    → All (IsBelow input.sheet_id input.position) s.sheet_rows
    → upsert_sheet_row_with_mode s input generation false ≡ ok t
    → t.sheet_rows ≡ s.sheet_rows ++ (inserted_row input generation ∷ [])
unfolding upsert_sheet_row_with_mode upsert_row
upsert_adds s input generation t fresh below h =
    let (_, _, h1) =
      >>=-eq-ok (owned_elsewhere (find_where (row_has_id input.row_id) s.sheet_rows) input) _ h in
    let (_, h2) = guard->>-eq-ok (contains input.sheet_id s.sheet_ids) _ h1 in
    let kept : delete_where (displaces input) s.sheet_rows ≡ s.sheet_rows =
      delete_where_none (displaces input) s.sheet_rows
        (All-map _ _ s.sheet_rows (λ row low. ground (arith, low)) below) in
    let h3 = rw fresh at (rw kept at h2) in ground (arith, h3)

append_all_adds :
    (s : Store) (sheet_id : Text) (start index : ℕ) (inputs : List (UpsertSheetRowInput × Text))
    (t : Store)
    → append_all s sheet_id start index inputs ≡ ok t
    → All (IsBelow sheet_id (start + index)) s.sheet_rows
    → t.sheet_rows ≡ s.sheet_rows ++ placed_rows (start + index) inputs
unfolding append_all
append_all_adds s sheet_id start index [] t h below =
    let e : s ≡ t = ground (arith, h) in
    ap (λ (u : Store). u.sheet_rows) (sym e) ∙ sym (append-nil s.sheet_rows)
append_all_adds s sheet_id start index ((input, generation) ∷ rest) t h below =
    let (accepted, h1) =
      guard->>-eq-ok
        (input.sheet_id == sheet_id && not (any (row_has_id input.row_id) s.sheet_rows)) _ h in
    let (_, h2) = guard->>-eq-ok (leb index u32_max && leb (start + index) u32_max) _ h1 in
    let placed = record input { position = start + index } in
    let new = inserted_row placed generation in
    let (u, first, h3) = >>=-eq-ok (upsert_sheet_row_with_mode s placed generation false) _ h2 in
    let own : input.sheet_id ≡ sheet_id =
      (text_beq_iff input.sheet_id sheet_id).0 (ground (arith, accepted)) in
    let fresh : any (row_has_id input.row_id) s.sheet_rows ≡ false = ground (arith, accepted) in
    let added : u.sheet_rows ≡ s.sheet_rows ++ (new ∷ []) =
      upsert_adds s placed generation u fresh
        (All-map _ _ s.sheet_rows (λ row low inside. low (ground (arith, inside, own))) below)
        first in
    let next : start + suc index ≡ suc (start + index) = omega arith in
    let later : t.sheet_rows ≡ u.sheet_rows ++ placed_rows (start + suc index) rest =
      append_all_adds u sheet_id start (suc index) rest t h3 (
        subst (All (IsBelow sheet_id (start + suc index))) (sym added) (
          All-append _ s.sheet_rows (new ∷ [])
            (All-map _ _ s.sheet_rows (λ row low inside. omega (arith, low inside)) below)
            (λ _. omega arith, tt))) in
    later
    ∙ ap (λ rows. rows ++ placed_rows (start + suc index) rest) added
    ∙ append_assoc s.sheet_rows (new ∷ []) (placed_rows (start + suc index) rest)
    ∙ ap (λ position. s.sheet_rows ++ (new ∷ placed_rows position rest)) next

-- An append that succeeds keeps all rows and adds those of its inputs, in their order, at the
-- positions after the last one of the sheet.
pub append_sheet_rows-eq :
    (s : Store) (sheet_id : Text) (inputs : List (UpsertSheetRowInput × Text)) (t : Store)
    → append_sheet_rows_atomic s sheet_id inputs ≡ ok t
    → t.sheet_rows
      ≡ s.sheet_rows ++ placed_rows (max_position_plus_one sheet_id s.sheet_rows) inputs
unfolding append_sheet_rows_atomic
append_sheet_rows-eq s sheet_id inputs t h =
    let start = max_position_plus_one sheet_id s.sheet_rows in
    let (_, h1) = guard->>-eq-ok (leb start u32_max) out_of_range h in
    append_all_adds s sheet_id start 0 inputs t h1 (
      All-map _ _ s.sheet_rows (λ row low inside. omega (arith, low inside))
        (below_next sheet_id s.sheet_rows))
    ∙ ap (λ position. s.sheet_rows ++ placed_rows position inputs) (omega arith)
