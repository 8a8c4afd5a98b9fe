-- ===== src/Tracking/Refreshed.antt =====
-- tracking.rs: the refresh of one row, between writes of other connections.
use ship_flow_tauri.Prelude.{
  Text, Bool, true, false, Option, none, some, ◌≡◌, refl, sym, subst, text_eq,
}
use ship_flow_tauri.Prelude.Table.{any, update_where_none, push_unique}
use ship_flow_tauri.Prelude.Outcome.{ok, err, ◌>>=◌}
use ship_flow_tauri.Storage.Tables.{Store, SheetRow, TrackingRecord}
use ship_flow_tauri.Storage.Rows.Lookups.{
  is_expected, with_row_status, upsert_tracking_record_and_attach_if_row_matches,
  update_sheet_row_status_if_lookup_matches,
}
use ship_flow_tauri.Tracking.Rows.{
  TrackingEngineResult, TrackResponse, Answer, BlobWriter, failed_input, from_json, or_missing,
  read_back, record_of, attach_response, record_response, record_with_blob, store_raw_response_blob,
  store_successful_tracking_response, start_refresh, finish_refresh, refresh_sheet_row,
}

-- No row is the one that the lookup was made for.
abbrev pub IsGone : SheetRow → Store → Type 0
IsGone row s =
    any (is_expected row.row_id row.lookup_tracking_id row.row_generation) s.sheet_rows ≡ false

abbrev pub is_ok {ℓ} : {A : Type ℓ} → TrackingEngineResult A → Bool
is_ok (ok value) = true
is_ok (err problem) = false

-- An error is returned, and the rows are as before.
abbrev pub IsDropped : Store → TrackingEngineResult SheetRow × Store → Type 0
IsDropped s refreshed = (refreshed.1.sheet_rows ≡ s.sheet_rows) × (is_ok refreshed.0 ≡ false)

abbrev gives_row : TrackingEngineResult (Option SheetRow) → Bool
gives_row (ok (some row)) = true
gives_row (ok none) = false
gives_row (err problem) = false

abbrev GivesNone : Store → TrackingEngineResult (Option SheetRow) × Store → Type 0
GivesNone s stored = (stored.1.sheet_rows ≡ s.sheet_rows) × (gives_row stored.0 ≡ false)

attach_gone :
    (s : Store) (row : SheetRow) (response_record : TrackingRecord)
    → IsGone row s
    → attach_response s row response_record ≡ ok (s, false)
unfolding upsert_tracking_record_and_attach_if_row_matches
attach_gone s row response_record gone = rw gone refl

recorded_gone :
    (s : Store) (row : SheetRow) (response : TrackResponse) (raw_blob_id : Option Text)
    → IsGone row s
    → GivesNone s (read_back s row (record_response s row response raw_blob_id))
unfolding read_back record_response
recorded_gone s row response raw_blob_id gone =
    by_json (from_json response.status_json) (from_json response.detail_json)
  where
    by_json :
        (status detail : TrackingEngineResult Text)
        → GivesNone s (
            read_back s row (
              status >>= λ status_json. detail >>= λ detail_json.
              attach_response s row (record_of row response raw_blob_id status_json detail_json)))
    by_json (err problem) detail = (refl, refl)
    by_json (ok status_json) (err problem) = (refl, refl)
    by_json (ok status_json) (ok detail_json) =
        subst (λ recorded. GivesNone s (read_back s row recorded))
          (sym
            (attach_gone s row (record_of row response raw_blob_id status_json detail_json) gone))
          (refl, refl)

with_blob_gone :
    (s : Store) (row : SheetRow) (response : TrackResponse)
    (written : Option (TrackingEngineResult Text))
    → IsGone row s
    → GivesNone s (record_with_blob s row response (store_raw_response_blob s written))
unfolding record_with_blob store_raw_response_blob
with_blob_gone s row response none gone = recorded_gone s row response none gone
with_blob_gone s row response (some (err problem)) gone = (refl, refl)
with_blob_gone s row response (some (ok blob_id)) gone =
    recorded_gone (record s { blob_ids = push_unique blob_id s.blob_ids }) row response
      (some blob_id) gone

or_missing_gone :
    (s : Store) (row : SheetRow) (stored : TrackingEngineResult (Option SheetRow) × Store)
    → GivesNone s stored
    → IsDropped s (or_missing row stored)
or_missing_gone s row (err problem, u) h = (h.0, refl)
or_missing_gone s row (ok none, u) h = (h.0, refl)
or_missing_gone s row (ok (some new), u) h = (h.0, cc)

finish_gone :
    (write : BlobWriter) (s : Store) (row : SheetRow) (answer : Answer)
    → IsGone row s
    → IsDropped s (finish_refresh write s row answer)
unfolding finish_refresh store_successful_tracking_response
    update_sheet_row_status_if_lookup_matches
finish_gone write s row (ok response) gone =
    or_missing_gone s row _ (with_blob_gone s row response (write response) gone)
finish_gone write s row (err failure) gone = (
  update_where_none (is_expected row.row_id row.lookup_tracking_id row.row_generation)
      (with_row_status (failed_input row failure)) s.sheet_rows gone,
  refl,
)

refresh_step :
    (write : BlobWriter) (fetch_tracking : Text → Answer) (meanwhile : Store → Store) (s : Store)
    (row_id : Text) (row : SheetRow) (t : Store)
    → start_refresh s row_id ≡ ok (row, t)
    → refresh_sheet_row write fetch_tracking meanwhile s row_id
      ≡ finish_refresh write (meanwhile t) row (fetch_tracking row.lookup_tracking_id)
unfolding refresh_sheet_row
refresh_step write fetch_tracking meanwhile s row_id row t started =
    rw (started, refresh_sheet_row) refl

-- Where a row that is being refreshed has gone, or has another lookup id or generation, when the
-- answer comes, the refresh returns an error, whatever the answer is, and no row is changed by it.
pub refresh_sheet_row_gone :
    (write : BlobWriter) (fetch_tracking : Text → Answer) (meanwhile : Store → Store) (s : Store)
    (row_id : Text) (row : SheetRow) (t : Store)
    → start_refresh s row_id ≡ ok (row, t)
    → IsGone row (meanwhile t)
    → IsDropped (meanwhile t) (refresh_sheet_row write fetch_tracking meanwhile s row_id)
refresh_sheet_row_gone write fetch_tracking meanwhile s row_id row t started gone =
    subst (IsDropped (meanwhile t))
      (sym (refresh_step write fetch_tracking meanwhile s row_id row t started))
      (finish_gone write (meanwhile t) row (fetch_tracking row.lookup_tracking_id) gone)
