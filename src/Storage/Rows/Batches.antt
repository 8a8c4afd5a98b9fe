-- ===== src/Storage/Rows/Batches.antt =====
-- storage.rs: upserts of rows, alone and in batches of one sheet.
use ship_flow_tauri.Prelude.{
  Text, Bool, true, false, List, [], ◌∷◌, ◌≡◌, refl, sym, subst, ◌∙◌, ◌==◌, text_eq, nat_eq,
  text_beq_iff, not, All, Bool-cases, inl, inr, arith, if◌then◌else◌,
}
use ship_flow_tauri.Prelude.Table.{find_where, any, delete_where, contains, All-map}
use ship_flow_tauri.Storage.Tables.{Store, SheetRow, ok, >>=-eq-ok, guard->>-eq-ok}
use ship_flow_tauri.Storage.Rows.{
  UpsertSheetRowInput, inserted_row, updated_row, owned_elsewhere, displaces, upsert_row,
  upsert_sheet_row_with_mode, upsert_all, upsert_sheet_rows_with_mode,
}
use ship_flow_tauri.Storage.Rows.Isolation.{
  row_has_id, IsKeyed, is_elsewhere, IsIsolated, delete_where-IsKeyed, filter-delete_where,
  update_where-IsKeyed, filter-update_where, append-IsKeyed, filter-append, All-delete_where,
}

abbrev IsOwn : UpsertSheetRowInput → SheetRow → Type 0
IsOwn input row = row_has_id input.row_id row ≡ true → row.sheet_id ≡ input.sheet_id

owned_rows :
    (input : UpsertSheetRowInput) (rows : List SheetRow)
    → owned_elsewhere (find_where (row_has_id input.row_id) rows) input ≡ ok tt
    → IsKeyed rows
    → All (IsOwn input) rows
unfolding owned_elsewhere
owned_rows input rows h keyed =
    All-map _ (IsOwn input) rows
      (λ row found same.
        let e : row.row_id ≡ input.row_id = (text_beq_iff row.row_id input.row_id).0 same in
        ground (arith, h, found, e, text_beq_iff row.sheet_id input.sheet_id))
      keyed

upsert_row-IsIsolated :
    (input : UpsertSheetRowInput) (generation : Text) (preserve : Bool) (rows : List SheetRow)
    → IsKeyed rows
    → All (IsOwn input) rows
    → IsIsolated input.sheet_id rows (upsert_row input generation preserve rows)
unfolding upsert_row
upsert_row-IsIsolated input generation preserve rows keyed own =
    elim (Bool-cases (any (row_has_id input.row_id) rows)) [
      | inl old ↦ rw old (record {
        keyed =
            update_where-IsKeyed (row_has_id input.row_id) (updated_row input generation preserve)
              (λ row. refl) (λ row. refl) rows keyed;
        elsewhere =
            filter-update_where (row_has_id input.row_id) (updated_row input generation preserve)
              (λ row. refl) (λ row. refl) input.sheet_id rows own;
      })
      | inr new ↦ rw new (record {
        keyed = append-IsKeyed rows (inserted_row input generation) new keyed;
        elsewhere =
            filter-append (is_elsewhere input.sheet_id) rows (inserted_row input generation)
              (ground (arith, text_beq_iff input.sheet_id input.sheet_id));
      })
    ]

upsert-IsIsolated :
    (s : Store) (input : UpsertSheetRowInput) (generation : Text) (preserve : Bool) (t : Store)
    → upsert_sheet_row_with_mode s input generation preserve ≡ ok t
    → IsKeyed s.sheet_rows
    → IsIsolated input.sheet_id s.sheet_rows t.sheet_rows
unfolding upsert_sheet_row_with_mode
upsert-IsIsolated s input generation preserve t h keyed =
    let (_, owned, h1) =
      >>=-eq-ok (owned_elsewhere (find_where (row_has_id input.row_id) s.sheet_rows) input) _ h in
    let (_, h2) = guard->>-eq-ok (contains input.sheet_id s.sheet_ids) _ h1 in
    let kept = delete_where (displaces input) s.sheet_rows in
    let step =
      upsert_row-IsIsolated input generation preserve kept
        (delete_where-IsKeyed (displaces input) s.sheet_rows keyed)
        (All-delete_where (IsOwn input) (displaces input) s.sheet_rows
          (owned_rows input s.sheet_rows owned keyed)) in
    let rows : t.sheet_rows ≡ upsert_row input generation preserve kept = ground (arith, h2) in
    subst (IsIsolated input.sheet_id s.sheet_rows) (sym rows) (record {
      keyed = step.keyed;
      elsewhere =
          step.elsewhere
          ∙ filter-delete_where (displaces input) (is_elsewhere input.sheet_id) s.sheet_rows
              (λ row e. ground (arith, e));
    })

upsert_all-IsIsolated :
    (s : Store) (sheet_id : Text) (inputs : List (UpsertSheetRowInput × Text)) (preserve : Bool)
    (t : Store)
    → upsert_all s inputs preserve ≡ ok t
    → any (λ (input : UpsertSheetRowInput × Text). not (input.0.sheet_id == sheet_id)) inputs
      ≡ false
    → IsKeyed s.sheet_rows
    → IsIsolated sheet_id s.sheet_rows t.sheet_rows
unfolding upsert_all any
upsert_all-IsIsolated s sheet_id [] preserve t h same keyed =
    let e : s ≡ t = ground (arith, h) in
    subst (λ u. IsIsolated sheet_id s.sheet_rows u.sheet_rows) e
      (record { keyed = keyed; elsewhere = refl })
upsert_all-IsIsolated s sheet_id ((input, generation) ∷ rest) preserve t h same keyed =
    let (u, first, h1) = >>=-eq-ok (upsert_sheet_row_with_mode s input generation preserve) _ h in
    let e : input.sheet_id ≡ sheet_id =
      ground (arith, same, text_beq_iff input.sheet_id sheet_id) in
    let step =
      subst (λ id. IsIsolated id s.sheet_rows u.sheet_rows) e
        (upsert-IsIsolated s input generation preserve u first keyed) in
    let later =
      upsert_all-IsIsolated u sheet_id rest preserve t h1 (ground (arith, same)) step.keyed in
    record { keyed = later.keyed; elsewhere = later.elsewhere ∙ step.elsewhere }

-- A batch of upserts of one sheet, replacing its rows or not, keeps row ids unique and leaves the
-- rows of every other sheet as they are, in the same order.
pub upsert_sheet_rows-IsIsolated :
    (s : Store) (sheet_id : Text) (inputs : List (UpsertSheetRowInput × Text))
    (replace preserve : Bool) (t : Store)
    → upsert_sheet_rows_with_mode s sheet_id inputs replace preserve ≡ ok t
    → IsKeyed s.sheet_rows
    → IsIsolated sheet_id s.sheet_rows t.sheet_rows
unfolding upsert_sheet_rows_with_mode
upsert_sheet_rows-IsIsolated s sheet_id inputs replace preserve t h keyed =
    elim (Bool-cases
      (any (λ (input : UpsertSheetRowInput × Text). not (input.0.sheet_id == sheet_id)) inputs)) [
        | inl bad ↦ absurd (ground (arith, h, bad))
        | inr same ↦ by_mode replace (rw same at h) same
      ]
  where
    by_mode :
        (mode : Bool)
        → upsert_all
            (if mode
              then record s {
                sheet_rows =
                    delete_where (λ (row : SheetRow). row.sheet_id == sheet_id) s.sheet_rows;
              }
              else s)
            inputs
            preserve
          ≡ ok t
        → any (λ (input : UpsertSheetRowInput × Text). not (input.0.sheet_id == sheet_id)) inputs
          ≡ false
        → IsIsolated sheet_id s.sheet_rows t.sheet_rows
    by_mode false h' same = upsert_all-IsIsolated s sheet_id inputs preserve t h' same keyed
    by_mode true h' same =
        let gone : SheetRow → Bool = λ row. row.sheet_id == sheet_id in
        let later =
          upsert_all-IsIsolated (record s { sheet_rows = delete_where gone s.sheet_rows }) sheet_id
            inputs preserve t h' same (delete_where-IsKeyed gone s.sheet_rows keyed) in
        record {
          keyed = later.keyed;
          elsewhere =
              later.elsewhere
              ∙ filter-delete_where gone (is_elsewhere sheet_id) s.sheet_rows
                  (λ row e. ground (arith, e));
        }

-- Upserts of rows leave the import tables as they are.
pub upsert_all-tables :
    (s : Store) (inputs : List (UpsertSheetRowInput × Text)) (preserve : Bool) (t : Store)
    → upsert_all s inputs preserve ≡ ok t
    → (t.items ≡ s.items) × (t.attempts ≡ s.attempts) × (t.jobs ≡ s.jobs)
unfolding upsert_all upsert_sheet_row_with_mode
upsert_all-tables s [] preserve t h = ground (arith, h)
upsert_all-tables s ((input, generation) ∷ rest) preserve t h =
    let (u, first, h1) = >>=-eq-ok (upsert_sheet_row_with_mode s input generation preserve) _ h in
    let (_, _, h2) =
      >>=-eq-ok (owned_elsewhere (find_where (row_has_id input.row_id) s.sheet_rows) input) _
        first in
    let (_, h3) = guard->>-eq-ok (contains input.sheet_id s.sheet_ids) _ h2 in
    ground (arith, h3, upsert_all-tables u rest preserve t h1)
