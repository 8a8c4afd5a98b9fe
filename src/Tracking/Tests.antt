-- ===== src/Tracking/Tests.antt =====
-- tracking.rs: a resolution, and refreshes of a sheet with two rows.
use ship_flow_tauri.Prelude.{
  ◌^◌, ◌<◌, ◌≤◌, ◌+◌, Text, bytes, text_beq, false, none, some, List, [], ◌∷◌, ◌≡◌, refl, length,
  map, All, arith,
}
use ship_flow_tauri.Prelude.Trim.{trim}
use ship_flow_tauri.Prelude.Table.{find_where, any, update_where, contains}
use ship_flow_tauri.Prelude.Outcome.{ok}
use ship_flow_tauri.Storage.Tables.{Store, SheetRow, SheetRowStatus}
use ship_flow_tauri.Storage.Rows.Samples.{row_at, two_sheets}
use ship_flow_tauri.Storage.Rows.Lookups.{upsert_tracking_record_and_attach_if_row_matches}
use ship_flow_tauri.Tracking.{
  TrackingIdResolution, IsResolved, resolve_tracking_id, resolve_tracking_id-IsResolved,
}
use ship_flow_tauri.Tracking.Rows.{
  TrackingEngineError, TrackResponse, Answer, BlobWriter, start_refresh, refresh_sheet_row,
  store_successful_tracking_response, store_failed_tracking_lookup,
}
use ship_flow_tauri.Tracking.Batches.{Batch, Happening, Target, add_row_ids}
use ship_flow_tauri.Tracking.Answers.{run_batch, setup_of}
use ship_flow_tauri.Tracking.Answers.Counts.{IsBalanced, IsEnded}
use ship_flow_tauri.Tracking.Answers.Ended.{is_left_over, run_batch_none_left}
use ship_flow_tauri.Tracking.Answers.Totals.{run_batch_counts}
use ship_flow_tauri.Tracking.Refreshed.{IsDropped, refresh_sheet_row_gone}

resolves_suffix : resolve_tracking_id (bytes " P1.22 ") ≡ record {
  display_id = bytes "P1.22";
  lookup_id = bytes "P1";
  resolution = TrackingIdResolution.stripped_numeric_suffix;
}
unfolding resolve_tracking_id text_beq
resolves_suffix = refl

resolve_tracking_id-IsResolved_example :
    IsResolved (trim (bytes " P1.22 ")) (resolve_tracking_id (bytes " P1.22 "))
resolve_tracking_id-IsResolved_example = resolve_tracking_id-IsResolved (bytes " P1.22 ")

abbrev sheet : Store
sheet = record two_sheets {
  sheet_rows =
      row_at (bytes "r1") (bytes "s") 0 (bytes "P1")
      ∷ row_at (bytes "r2") (bytes "s") 1 (bytes "P2")
      ∷ row_at (bytes "r3") (bytes "s") 2 (bytes "P1")
      ∷ [];
}

abbrev response : TrackResponse
response = record {
  url = bytes "u";
  nomor_kiriman = none;
  status = some (bytes "DELIVERED");
  status_json = ok (bytes "{}");
  detail_json = ok (bytes "{}");
  history_json = bytes "{}";
}

abbrev no_blobs : BlobWriter
no_blobs sent = none

abbrev silent : TrackingEngineError → Text
silent problem = []

-- The id of `r1` is trimmed, and `r3` shares its group.
abbrev asked : List Text
asked = bytes " r1" ∷ bytes "r2" ∷ bytes "r3" ∷ bytes "r1" ∷ bytes "r9" ∷ []

-- An answer, one for an id that nothing was asked for, and none for `P2`.
abbrev answers : List Happening
answers =
    Happening.answered (bytes "P9") (ok response)
    ∷ Happening.written (λ s. s)
    ∷ Happening.answered (bytes "P1") (ok response)
    ∷ []

abbrev ran : Batch
ran = run_batch no_blobs silent (setup_of sheet (bytes "s") asked) answers none

batch_runs : (ran.success_count ≡ 2) × (ran.failed_count ≡ 1)
unfolding run_batch text_beq add_row_ids trim contains any find_where update_where
    store_successful_tracking_response upsert_tracking_record_and_attach_if_row_matches
    store_failed_tracking_lookup
batch_runs = (refl, refl)

statuses :
    map (λ (row : SheetRow). row.row_status) ran.store.sheet_rows
    ≡ SheetRowStatus.loaded ∷ SheetRowStatus.failed ∷ SheetRowStatus.loaded ∷ []
unfolding run_batch text_beq add_row_ids trim contains any find_where update_where
    store_successful_tracking_response upsert_tracking_record_and_attach_if_row_matches
    store_failed_tracking_lookup
statuses = refl

few : length (setup_of sheet (bytes "s") asked).target_rows < 2 ^ 32
unfolding add_row_ids text_beq trim contains any find_where update_where
few = omega arith

run_batch_counts_example :
    All (IsBalanced (length (setup_of sheet (bytes "s") asked).target_rows)) ran.events
    × (ran.success_count + ran.failed_count ≡ length ran.rows)
    × (length ran.rows ≤ length (setup_of sheet (bytes "s") asked).target_rows)
    × All IsEnded ran.rows
run_batch_counts_example = run_batch_counts no_blobs silent sheet (bytes "s") asked answers none few

run_batch_none_left_example :
    All
      (λ (target : Target). is_left_over ran target ≡ false)
      (setup_of sheet (bytes "s") asked).target_rows
run_batch_none_left_example =
    run_batch_none_left no_blobs silent (setup_of sheet (bytes "s") asked) answers none

-- The row is deleted during the lookup.
abbrev emptied : Store → Store
emptied s = record s { sheet_rows = [] }

abbrev delivered : Text → Answer
delivered lookup_tracking_id = ok response

abbrev first_row : SheetRow
first_row = row_at (bytes "r1") (bytes "s") 0 (bytes "P1")

abbrev in_flight : Store
in_flight = record sheet {
  sheet_rows =
      (record first_row { row_status = SheetRowStatus.loading; error_message = none })
      ∷ row_at (bytes "r2") (bytes "s") 1 (bytes "P2")
      ∷ row_at (bytes "r3") (bytes "s") 2 (bytes "P1")
      ∷ [];
}

starts : start_refresh sheet (bytes "r1") ≡ ok (first_row, in_flight)
unfolding start_refresh text_beq find_where any update_where
starts = refl

refresh_sheet_row_gone_example :
    IsDropped (emptied in_flight) (refresh_sheet_row no_blobs delivered emptied sheet (bytes "r1"))
unfolding any
refresh_sheet_row_gone_example =
    refresh_sheet_row_gone no_blobs delivered emptied sheet (bytes "r1") first_row in_flight starts
      refl
