-- ===== src/ImportEngine/Plans/Fresh.antt =====
-- import_engine.rs: a plan that succeeds, with new row ids at new positions.
use ship_flow_tauri.Prelude.{
  ℕ, suc, ◌+◌, ◌%◌, ◌^◌, ◌≤◌, ◌<◌, Text, false, some, none, List, [], ◌∷◌, ◌≡◌, refl, sym, ap, ◌∙◌,
  ◌==◌, text_eq, text_beq_iff, All, Option-cases, Bool-cases, inl, inr, arith, length, u32_max, map,
}
use ship_flow_tauri.Prelude.Table.{any, contains, All-map}
use ship_flow_tauri.Prelude.Outcome.{ok}
use ship_flow_tauri.Storage.Tables.{Store}
use ship_flow_tauri.Storage.Rows.{UpsertSheetRowInput}
use ship_flow_tauri.Storage.Rows.Isolation.{row_has_id}
use ship_flow_tauri.Storage.Rows.GeneratedIds.{
  generated_row_id, next_available_generated_sheet_row_id, next_available_total,
  next_available-suffix, generated_row_id-position,
}
use ship_flow_tauri.Storage.Rows.Positions.{
  max_position_plus_one, next_sheet_row_position, sheet_row_id_for_display_tracking_id,
}
use ship_flow_tauri.ImportEngine.Sources.Distinct.{IsDistinct}
use ship_flow_tauri.ImportEngine.Plans.{
  SheetRowPlan, planned_row, with_known, with_planned, plan_from, plan_unique_sheet_rows,
}

abbrev pub planned_ids : List UpsertSheetRowInput → List Text
planned_ids rows = map (λ (row : UpsertSheetRowInput). row.row_id) rows

-- Positions one after another, from a first one on.
abbrev pub AreConsecutive : ℕ → List UpsertSheetRowInput → Type 0
AreConsecutive k [] = Unit
AreConsecutive k (row ∷ rows) = (row.position ≡ k) × AreConsecutive (suc k) rows

module _ (s : Store) (sheet_id : Text) where
  -- A row of the sheet with an id that no row has, generated for its position.
  abbrev pub IsFresh : UpsertSheetRowInput → Type 0
  IsFresh row =
      (row.sheet_id ≡ sheet_id)
      × (any (row_has_id row.row_id) s.sheet_rows ≡ false)
      × ((i : ℕ) × (row.row_id ≡ generated_row_id sheet_id row.position i))

  pub record IsPlan (position : ℕ) (display_tracking_ids : List Text) (plan : SheetRowPlan)
      : Type 0 where
    pub fresh : All IsFresh plan.rows
    pub distinct : IsDistinct (planned_ids plan.rows)
    pub consecutive : AreConsecutive position plan.rows
    pub later : All (λ (row : UpsertSheetRowInput). position ≤ row.position) plan.rows
    pub each : length plan.sheet_row_ids ≡ length display_tracking_ids

  -- A row that is generated for an earlier position has an id of its own.
  new_id :
      (row : UpsertSheetRowInput) (rows : List UpsertSheetRowInput)
      → IsFresh row
      → All IsFresh rows
      → All (λ (other : UpsertSheetRowInput). row.position < other.position) rows
      → contains row.row_id (planned_ids rows) ≡ false
  unfolding contains
  new_id row [] fresh others later = refl
  new_id row (other ∷ rows) fresh others later = elim (Bool-cases (other.row_id == row.row_id)) [
    | inr differs ↦ ground (arith, differs, new_id row rows fresh others.1 later.1)
    | inl same ↦
        let e : other.row_id ≡ row.row_id = (text_beq_iff other.row_id row.row_id).0 same in
        let (_, _, (i, mine)) = fresh in
        let (_, _, (j, theirs)) = others.0 in
        absurd (
          omega (
            arith,
            later.0,
            generated_row_id-position sheet_id row.position other.position i j
                (sym mine ∙ sym e ∙ theirs),
          ))
  ]

  -- One turn of the loop.
  plan_known :
      (position : ℕ) (id row_id : Text) (rest : List Text) (plan : SheetRowPlan)
      → sheet_row_id_for_display_tracking_id s sheet_id id ≡ some row_id
      → plan_from s sheet_id position rest ≡ ok plan
      → plan_from s sheet_id position (id ∷ rest) ≡ ok (with_known row_id plan)
  unfolding plan_from
  plan_known position id row_id rest plan known run = rw (known, plan_from) (rw run refl)

  plan_new :
      (position : ℕ) (id row_id : Text) (rest : List Text) (plan : SheetRowPlan)
      → sheet_row_id_for_display_tracking_id s sheet_id id ≡ none
      → next_available_generated_sheet_row_id s.sheet_rows sheet_id position ≡ some row_id
      → plan_from s sheet_id ((position + 1) % 2 ^ 32) rest ≡ ok plan
      → plan_from s sheet_id position (id ∷ rest)
        ≡ ok (with_planned (planned_row sheet_id position id row_id) plan)
  unfolding plan_from
  plan_new position id row_id rest plan unknown found run =
      rw (unknown, plan_from) (rw found (rw run refl))

  plan_from_total :
      (position : ℕ) (ids : List Text)
      → length s.sheet_rows < u32_max
      → position + length ids ≤ u32_max
      → (plan : SheetRowPlan) × (plan_from s sheet_id position ids ≡ ok plan)
        × IsPlan position ids plan
  unfolding plan_from
  plan_from_total position [] room fits = (
    record { rows = []; sheet_row_ids = [] },
    refl,
    record { fresh = tt; distinct = tt; consecutive = tt; later = tt; each = refl },
  )
  plan_from_total position (id ∷ rest) room fits =
      elim (Option-cases (sheet_row_id_for_display_tracking_id s sheet_id id)) [
        | inr (row_id, known) ↦
            let (plan, run, h) = plan_from_total position rest room (omega (arith, fits)) in
            (
              with_known row_id plan,
              plan_known position id row_id rest plan known run,
              record {
                fresh = h.fresh;
                distinct = h.distinct;
                consecutive = h.consecutive;
                later = h.later;
                each = omega (arith, h.each);
              },
            )
        | inl unknown ↦
            let (row_id, found, free) = next_available_total s.sheet_rows sheet_id position room in
            let row = planned_row sheet_id position id row_id in
            let next : (position + 1) % 2 ^ 32 ≡ suc position = omega (arith, fits) in
            let (plan, run, h) = plan_from_total (suc position) rest room (omega (arith, fits)) in
            let fresh : IsFresh row =
              (refl, free, next_available-suffix s.sheet_rows sheet_id position row_id found) in
            (
              with_planned row plan,
              plan_new position id row_id rest plan unknown found
                  (ap (λ p. plan_from s sheet_id p rest) next ∙ run),
              record {
                fresh = (fresh, h.fresh);
                distinct = (new_id row plan.rows fresh h.fresh h.later, h.distinct);
                consecutive = (refl, h.consecutive);
                later = (
                  omega arith,
                  All-map _ _ plan.rows (λ other lower. omega (arith, lower)) h.later,
                );
                each = omega (arith, h.each);
              },
            )
      ]

-- A plan for the ids of a bag succeeds where there is room for them: its rows have ids that no row
-- has, no two the same, and stand at the positions after those of the sheet, and there is one row
-- id for each displayed id.
pub plan_unique_sheet_rows_total :
    (s : Store) (sheet_id : Text) (ids : List Text)
    → length s.sheet_rows < u32_max
    → max_position_plus_one sheet_id s.sheet_rows + length ids ≤ u32_max
    → (plan : SheetRowPlan) × (plan_unique_sheet_rows s sheet_id ids ≡ ok plan)
      × IsPlan s sheet_id (max_position_plus_one sheet_id s.sheet_rows) ids plan
unfolding plan_unique_sheet_rows next_sheet_row_position
plan_unique_sheet_rows_total s sheet_id ids room fits =
    let start = max_position_plus_one sheet_id s.sheet_rows in
    let same : start % 2 ^ 32 ≡ start = omega (arith, fits) in
    rw same (plan_from_total s sheet_id start ids room fits)
