-- ===== src/ImportEngine/Plans.antt =====
-- import_engine.rs: the rows that a bag adds to a sheet.
pub mod Fresh
use ship_flow_tauri.Prelude.{ℕ, ◌+◌, ◌%◌, ◌^◌, Text, Option, none, some, List, [], ◌∷◌}
use ship_flow_tauri.Prelude.Outcome.{ok, ◌>>=◌, or_fail}
use ship_flow_tauri.Storage.Tables.{Store, SheetRowStatus, WorkspaceStoreError}
use ship_flow_tauri.Storage.Rows.{UpsertSheetRowInput}
use ship_flow_tauri.Storage.Rows.GeneratedIds.{next_available_generated_sheet_row_id}
use ship_flow_tauri.Storage.Rows.Positions.{
  next_sheet_row_position, sheet_row_id_for_display_tracking_id,
}
use ship_flow_tauri.Tracking.{resolve_tracking_id}
use ship_flow_tauri.ImportEngine.{ImportEngineResult, ImportEngineError}

pub record SheetRowPlan : Type 0 where
  pub rows : List UpsertSheetRowInput
  pub sheet_row_ids : List Text

abbrev pub planned_row : Text → ℕ → Text → Text → UpsertSheetRowInput
planned_row sheet_id position display_tracking_id row_id =
    let resolved = resolve_tracking_id display_tracking_id in
    record {
      row_id = row_id;
      sheet_id = sheet_id;
      position = position;
      display_tracking_id = resolved.display_id;
      lookup_tracking_id = resolved.lookup_id;
      row_status = SheetRowStatus.loaded;
      error_message = none;
    }

abbrev pub with_known : Text → SheetRowPlan → SheetRowPlan
with_known row_id plan = record plan { sheet_row_ids = row_id ∷ plan.sheet_row_ids }

abbrev pub with_planned : UpsertSheetRowInput → SheetRowPlan → SheetRowPlan
with_planned row plan = record {
  rows = row ∷ plan.rows;
  sheet_row_ids = row.row_id ∷ plan.sheet_row_ids;
}

-- The loop, from a position on. An id that the sheet has keeps its row.
unfoldable pub plan_from : Store → Text → ℕ → List Text → ImportEngineResult SheetRowPlan
unfolding next_available_generated_sheet_row_id sheet_row_id_for_display_tracking_id
plan_from s sheet_id position [] = ok (record { rows = []; sheet_row_ids = [] })
plan_from s sheet_id position (display_tracking_id ∷ rest) =
    elim (sheet_row_id_for_display_tracking_id s sheet_id display_tracking_id) [
      | some row_id ↦ do plan ← plan_from s sheet_id position rest; ok (with_known row_id plan)
      | none ↦ do
        row_id ←
            or_fail (next_available_generated_sheet_row_id s.sheet_rows sheet_id position)
              (ImportEngineError.store WorkspaceStoreError.endless)
        plan ← plan_from s sheet_id ((position + 1) % 2 ^ 32) rest
        ok (with_planned (planned_row sheet_id position display_tracking_id row_id) plan)
    ]

unfoldable pub plan_unique_sheet_rows : Store → Text → List Text → ImportEngineResult SheetRowPlan
unfolding plan_from next_sheet_row_position
plan_unique_sheet_rows s sheet_id display_tracking_ids =
    plan_from s sheet_id (next_sheet_row_position s sheet_id) display_tracking_ids
