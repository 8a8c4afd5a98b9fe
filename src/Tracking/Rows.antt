-- ===== src/Tracking/Rows.antt =====
-- tracking.rs: the answer of a shipment lookup written to the row that it was looked up for, and the
-- refresh of one row. The writing of response bodies to disk is a parameter, and so is the service.
use ship_flow_tauri.Prelude.{
  Text, bytes, Bool, true, false, Option, none, some, ◌++◌, ◌==◌, text_eq, ◌&&◌, if◌then◌else◌,
}
use ship_flow_tauri.Prelude.Table.{find_where, push_unique}
use ship_flow_tauri.Prelude.Outcome.{Outcome, ok, err, ◌>>=◌}
use ship_flow_tauri.Storage.Tables.{
  Store, SheetRow, SheetRowStatus, TrackingRecord, WorkspaceStoreError, Result,
}
use ship_flow_tauri.Storage.Rows.Isolation.{row_has_id}
use ship_flow_tauri.Storage.Rows.Lookups.{
  AttachTrackingRecordToSheetRowInput, UpdateSheetRowStatusInput,
  upsert_tracking_record_and_attach_if_row_matches, update_sheet_row_status_if_lookup_matches,
}

pub record TrackingLookupFailure : Type 0 where
  pub message : Text

pub data TrackingEngineError : Type 0 where
  store : WorkspaceStoreError → TrackingEngineError
  lookup : TrackingLookupFailure → TrackingEngineError
  missing_sheet_row json blob : Text → TrackingEngineError

abbrev pub TrackingEngineResult {ℓ} : Type ℓ → Type ℓ
TrackingEngineResult A = Outcome TrackingEngineError A

-- What the engine reads of a response. The last three are the documents that serde makes of its
-- parts, or why it cannot.
pub record TrackResponse : Type 0 where
  pub url : Text
  pub nomor_kiriman : Option Text
  pub status : Option Text
  pub status_json : Outcome Text Text
  pub detail_json : Outcome Text Text
  pub history_json : Text

abbrev pub Answer : Type 0
Answer = Outcome TrackingLookupFailure TrackResponse

-- The id of the blob, or an error, or nothing where no directory for blobs is set.
abbrev pub BlobWriter : Type 0
BlobWriter = TrackResponse → Option (TrackingEngineResult Text)

abbrev pub from_store {ℓ} : {A : Type ℓ} → Result A → TrackingEngineResult A
from_store (ok value) = ok value
from_store (err problem) = err (TrackingEngineError.store problem)

abbrev pub from_json : Outcome Text Text → TrackingEngineResult Text
from_json (ok text) = ok text
from_json (err problem) = err (TrackingEngineError.json problem)

abbrev text_or : Option Text → Text → Text
text_or none other = other
text_or (some text) other = text

unfoldable pub tracking_record_id : Text → Text
tracking_record_id lookup_tracking_id = bytes "tracking:" ++ lookup_tracking_id

-- The blob is recorded under its id, which is the hash of its content.
unfoldable pub store_raw_response_blob :
    Store → Option (TrackingEngineResult Text) → TrackingEngineResult (Option Text × Store)
store_raw_response_blob s none = ok (none, s)
store_raw_response_blob s (some (err problem)) = err problem
store_raw_response_blob s (some (ok blob_id)) =
    ok (some blob_id, record s { blob_ids = push_unique blob_id s.blob_ids })

-- .filter(|current| ...)
abbrev pub is_current : SheetRow → SheetRow → Bool
is_current row current =
    current.lookup_tracking_id == row.lookup_tracking_id
    && current.row_generation == row.row_generation

abbrev pub keep_current : SheetRow → Option SheetRow → Option SheetRow
keep_current row none = none
keep_current row (some current) = if is_current row current then some current else none

-- What a conditional write gives back: the row as it is stored, where it was written.
unfoldable pub read_back :
    Store
    → SheetRow
    → TrackingEngineResult (Store × Bool)
    → TrackingEngineResult (Option SheetRow) × Store
read_back s row (err problem) = (err problem, s)
read_back s row (ok (t, false)) = (ok none, t)
read_back s row (ok (t, true)) =
    (ok (keep_current row (find_where (row_has_id row.row_id) t.sheet_rows)), t)

abbrev pub loaded_input : SheetRow → AttachTrackingRecordToSheetRowInput
loaded_input row = record {
  row_id = row.row_id;
  tracking_record_id = tracking_record_id row.lookup_tracking_id;
  row_status = SheetRowStatus.loaded;
  error_message = none;
}

abbrev pub record_of : SheetRow → TrackResponse → Option Text → Text → Text → TrackingRecord
record_of row response raw_blob_id status_json detail_json = record {
  record_id = tracking_record_id row.lookup_tracking_id;
  display_tracking_id = text_or response.nomor_kiriman row.lookup_tracking_id;
  lookup_tracking_id = row.lookup_tracking_id;
  normalized_status = response.status;
  status_json = status_json;
  detail_json = detail_json;
  history_json = response.history_json;
  raw_blob_id = raw_blob_id;
  source_url = response.url;
}

abbrev pub attach_response : Store → SheetRow → TrackingRecord → TrackingEngineResult (Store × Bool)
attach_response s row response_record = from_store (
    upsert_tracking_record_and_attach_if_row_matches s response_record (loaded_input row)
      row.lookup_tracking_id row.row_generation)

unfoldable pub record_response :
    Store → SheetRow → TrackResponse → Option Text → TrackingEngineResult (Store × Bool)
unfolding tracking_record_id
record_response s row response raw_blob_id = do
  status_json ← from_json response.status_json
  detail_json ← from_json response.detail_json
  attach_response s row (record_of row response raw_blob_id status_json detail_json)

-- The blob stays where the record is refused.
unfoldable pub record_with_blob :
    Store
    → SheetRow
    → TrackResponse
    → TrackingEngineResult (Option Text × Store)
    → TrackingEngineResult (Option SheetRow) × Store
unfolding record_response read_back
record_with_blob s row response (err problem) = (err problem, s)
record_with_blob s row response (ok (raw_blob_id, t)) =
    read_back t row (record_response t row response raw_blob_id)

unfoldable pub store_successful_tracking_response :
    BlobWriter → Store → SheetRow → TrackResponse → TrackingEngineResult (Option SheetRow) × Store
unfolding store_raw_response_blob record_with_blob
store_successful_tracking_response write s row response =
    record_with_blob s row response (store_raw_response_blob s (write response))

abbrev pub failed_input : SheetRow → TrackingLookupFailure → UpdateSheetRowStatusInput
failed_input row failure = record {
  row_id = row.row_id;
  row_status = SheetRowStatus.failed;
  error_message = some failure.message;
}

abbrev pub status_input : SheetRow → SheetRowStatus → UpdateSheetRowStatusInput
status_input row status = record { row_id = row.row_id; row_status = status; error_message = none }

unfoldable pub store_failed_tracking_lookup :
    Store → SheetRow → TrackingLookupFailure → TrackingEngineResult (Option SheetRow) × Store
unfolding read_back update_sheet_row_status_if_lookup_matches
store_failed_tracking_lookup s row failure = read_back s row (
    ok (
      update_sheet_row_status_if_lookup_matches s (failed_input row failure) row.lookup_tracking_id
        row.row_generation))

unfoldable pub failed_tracking_projection : SheetRow → TrackingLookupFailure → SheetRow
failed_tracking_projection row failure = record row {
  row_status = SheetRowStatus.failed;
  error_message = some failure.message;
}

-- The transaction that starts the refresh of a row.
unfoldable pub start_refresh : Store → Text → TrackingEngineResult (SheetRow × Store)
unfolding update_sheet_row_status_if_lookup_matches
start_refresh s row_id = elim (find_where (row_has_id row_id) s.sheet_rows) [
  | none ↦ err (TrackingEngineError.missing_sheet_row row_id)
  | some row ↦
      let (t, updated) =
        update_sheet_row_status_if_lookup_matches s (status_input row SheetRowStatus.loading)
          row.lookup_tracking_id row.row_generation in
      if updated then ok (row, t) else err (TrackingEngineError.missing_sheet_row row.row_id)
]

abbrev pub or_missing :
    SheetRow
    → TrackingEngineResult (Option SheetRow) × Store
    → TrackingEngineResult SheetRow × Store
or_missing row (err problem, s) = (err problem, s)
or_missing row (ok none, s) = (err (TrackingEngineError.missing_sheet_row row.row_id), s)
or_missing row (ok (some current), s) = (ok current, s)

-- What the answer of the service does to the row. A failure that is stored is still an error.
unfoldable pub finish_refresh :
    BlobWriter → Store → SheetRow → Answer → TrackingEngineResult SheetRow × Store
unfolding store_successful_tracking_response update_sheet_row_status_if_lookup_matches
finish_refresh write s row (ok response) =
    or_missing row (store_successful_tracking_response write s row response)
finish_refresh write s row (err failure) =
    let (t, updated) =
      update_sheet_row_status_if_lookup_matches s (failed_input row failure) row.lookup_tracking_id
        row.row_generation in
    (
      err (
          if updated
          then TrackingEngineError.lookup failure
          else TrackingEngineError.missing_sheet_row row.row_id),
      t,
    )

-- `meanwhile` is what other connections do to the store during the lookup.
unfoldable pub refresh_sheet_row :
    BlobWriter
    → (Text → Answer)
    → (Store → Store)
    → Store
    → Text
    → TrackingEngineResult SheetRow × Store
unfolding start_refresh finish_refresh
refresh_sheet_row write fetch_tracking meanwhile s row_id = elim (start_refresh s row_id) [
  | err problem ↦ (err problem, s)
  | ok (row, t) ↦ finish_refresh write (meanwhile t) row (fetch_tracking row.lookup_tracking_id)
]
