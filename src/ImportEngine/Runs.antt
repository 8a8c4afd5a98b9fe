-- ===== src/ImportEngine/Runs.antt =====
-- import_engine.rs: the items of a job, run one after another. The service is a state `W` with two
-- lookups, whose answers stand for timeouts too; a clock, the writing of response bodies to disk and
-- the generations of new rows are parameters as well. No other connection writes meanwhile.
pub mod Waiting
pub mod Grown
pub mod Turns
pub mod Ends
use ship_flow_tauri.Prelude.{
  ℕ, zero, suc, ◌+◌, ◌%◌, ◌^◌, Text, bytes, Bool, true, false, Option, none, some, List, [], ◌∷◌,
  ◌++◌, map, ◌==◌, nat_eq, text_eq, leb, if◌then◌else◌, count, length, saturating_add,
}
use ship_flow_tauri.Prelude.Decimal.{decimal}
use ship_flow_tauri.Prelude.Table.{push_unique}
use ship_flow_tauri.Prelude.Outcome.{Outcome, ok, err, ◌>>=◌, or_fail}
use ship_flow_tauri.Storage.Tables.{
  Store, Result, ImportJob, ImportJobItem, ImportKind, ImportMode, ImportSourceItemKind,
  ImportAttemptStatus,
}
use ship_flow_tauri.Storage.Rows.{UpsertSheetRowInput}
use ship_flow_tauri.Storage.Jobs.{
  item_of_job, get_import_job_summary, claim_next_pending_import_job_item,
}
use ship_flow_tauri.Storage.Jobs.Attempts.{
  StartImportAttemptInput, FinishImportAttemptInput, CreateImportJobItemInput, start_import_attempt,
  finish_import_attempt, finish_manifest_import_attempt_with_items,
  finish_bag_import_attempt_with_sheet_rows,
}
use ship_flow_tauri.Storage.Jobs.Lifecycle.{
  CreateImportJobInput, ImportRetryTargets, create_import_job_with_items, retry_import_job_failed,
  next_import_job_item_position,
}
use ship_flow_tauri.ImportEngine.{
  ImportEngineResult, ImportEngineError, ImportLookupFailure, BagResponse, ManifestResponse,
  max_import_job_items,
}
use ship_flow_tauri.ImportEngine.Sources.{
  validate_import_source_ids, extract_bag_tracking_ids, extract_manifest_bag_ids,
}
use ship_flow_tauri.ImportEngine.Plans.{plan_unique_sheet_rows}

-- `write_bag` and `write_manifest` give the id of the blob, an error of the disk, or nothing where no
-- directory for blobs is set.
pub record ImportLookupSource (W : Type 0) : Type 0 where
  pub fetch_bag : W → Text → Outcome ImportLookupFailure BagResponse × W
  pub fetch_manifest : W → Text → Outcome ImportLookupFailure ManifestResponse × W
  pub write_bag : BagResponse → Option (Outcome Text Text)
  pub write_manifest : ManifestResponse → Option (Outcome Text Text)
  pub row_generation : W → Text → Text
  pub clock : W → ℕ

-- The `?` operator on an error of the store.
abbrev pub from_store {ℓ} : {A : Type ℓ} → Result A → ImportEngineResult A
from_store (ok value) = ok value
from_store (err problem) = err (ImportEngineError.store problem)

-- The blob is recorded under its id, which is the hash of its content.
unfoldable pub store_raw_response_blob :
    Store → Option (Outcome Text Text) → ImportEngineResult (Option Text × Store)
store_raw_response_blob s none = ok (none, s)
store_raw_response_blob s (some (err message)) = err (ImportEngineError.blob message)
store_raw_response_blob s (some (ok blob_id)) =
    ok (some blob_id, record s { blob_ids = push_unique blob_id s.blob_ids })

abbrev pub failed_attempt : Text → Text → FinishImportAttemptInput
failed_attempt attempt_id message = record {
  attempt_id = attempt_id;
  status = ImportAttemptStatus.failed;
  tracking_ids = [];
  error_message = some message;
  raw_blob_id = none;
}

abbrev pub succeeded_attempt : Text → List Text → Option Text → FinishImportAttemptInput
succeeded_attempt attempt_id tracking_ids raw_blob_id = record {
  attempt_id = attempt_id;
  status = ImportAttemptStatus.succeeded;
  tracking_ids = tracking_ids;
  error_message = none;
  raw_blob_id = raw_blob_id;
}

-- The items that a manifest adds, `first_position + offset as u32` apart.
unfoldable pub bag_items : Text → ℕ → List Text → List CreateImportJobItemInput
unfolding decimal
bag_items job_id position [] = []
bag_items job_id position (bag_id ∷ rest) =
    record {
      item_id = job_id ++ (bytes ":manifest-bag:" ++ decimal position);
      job_id = job_id;
      source_item_id = bag_id;
      source_item_kind = ImportSourceItemKind.manifest_bag;
      position = position;
    }
    ∷ bag_items job_id ((position + 1) % 2 ^ 32) rest

abbrev pub job_size : Store → Text → ℕ
job_size s job_id = count (item_of_job job_id) s.items

unfoldable pub add_bags :
    Store
    → Text
    → Text
    → Option (Outcome Text Text)
    → ℕ
    → List Text
    → ImportEngineResult (Bool × Store)
unfolding store_raw_response_blob bag_items
add_bags s job_id attempt_id written now bag_ids = do
  stored ← store_raw_response_blob s written
  from_store (
      finish_manifest_import_attempt_with_items stored.1
        (succeeded_attempt attempt_id bag_ids stored.0)
        (bag_items job_id (next_import_job_item_position stored.1.items job_id) bag_ids) now)

-- What a manifest's answer does to the store.
unfoldable pub settle_manifest :
    Store
    → Text
    → Text
    → Option (Outcome Text Text)
    → ℕ
    → Outcome ImportLookupFailure ManifestResponse
    → ImportEngineResult (Bool × Store)
unfolding extract_manifest_bag_ids add_bags
settle_manifest s job_id attempt_id written now (err failure) =
    from_store (finish_import_attempt s (failed_attempt attempt_id failure.message) now)
settle_manifest s job_id attempt_id written now (ok response) = do
  let bag_ids = extract_manifest_bag_ids response
  job ← or_fail (get_import_job_summary s job_id) (ImportEngineError.missing_job job_id)
  elim (leb (saturating_add (job_size s job_id) (length bag_ids)) max_import_job_items) [
    | true ↦ add_bags s job_id attempt_id written now bag_ids
    | false ↦ from_store (
        finish_import_attempt s
          (failed_attempt attempt_id (bytes "Import job exceeds 100000 items.")) now)
  ]

-- What a bag's answer does to the store.
unfoldable pub settle_bag :
    Store
    → Text
    → ImportJobItem
    → Text
    → Option (Outcome Text Text)
    → (Text → Text)
    → ℕ
    → Outcome ImportLookupFailure BagResponse
    → ImportEngineResult (Bool × Store)
unfolding extract_bag_tracking_ids store_raw_response_blob
settle_bag s sheet_id item attempt_id written generation now (err failure) =
    from_store (finish_import_attempt s (failed_attempt attempt_id failure.message) now)
settle_bag s sheet_id item attempt_id written generation now (ok response) = do
  let shipment_ids = extract_bag_tracking_ids response
  stored ← store_raw_response_blob s written
  plan ← plan_unique_sheet_rows stored.1 sheet_id shipment_ids
  from_store (
      finish_bag_import_attempt_with_sheet_rows stored.1
        (succeeded_attempt attempt_id shipment_ids stored.0) item.item_id
        (map (λ (row : UpsertSheetRowInput). (row, generation row.row_id)) plan.rows)
        plan.sheet_row_ids now)

abbrev pub written_of :
    {R : Type 0}
    → (R → Option (Outcome Text Text))
    → Outcome ImportLookupFailure R
    → Option (Outcome Text Text)
written_of write (ok response) = write response
written_of write (err failure) = none

-- {item_id}:attempt:{attempt_count + 1}
abbrev pub attempt_id_of : ImportJobItem → Text
attempt_id_of item = item.item_id ++ (bytes ":attempt:" ++ decimal (item.attempt_count + 1))

abbrev pub start_input : ImportJobItem → StartImportAttemptInput
start_input item = record {
  attempt_id = attempt_id_of item;
  item_id = item.item_id;
  raw_blob_id = none;
}

abbrev pub forward {ℓ} :
    {W : Type ℓ} → ImportEngineResult (Bool × Store) × W → ImportEngineResult (Store × W)
forward (ok (done, s), w) = ok (s, w)
forward (err problem, w) = err problem

module _ {W : Type 0} (source : ImportLookupSource W) where
  unfoldable pub run_manifest_item :
      Store → W → Text → ImportJobItem → Text → ImportEngineResult (Bool × Store) × W
  unfolding settle_manifest
  run_manifest_item s w job_id item attempt_id =
      let (answer, later) = source.fetch_manifest w item.source_item_id in
      (
        settle_manifest s job_id attempt_id (written_of source.write_manifest answer)
            (source.clock later) answer,
        later,
      )

  unfoldable pub run_bag_item :
      Store → W → Text → ImportJobItem → Text → ImportEngineResult (Bool × Store) × W
  unfolding settle_bag
  run_bag_item s w sheet_id item attempt_id =
      let (answer, later) = source.fetch_bag w item.source_item_id in
      (
        settle_bag s sheet_id item attempt_id (written_of source.write_bag answer)
            (source.row_generation later) (source.clock later) answer,
        later,
      )

  unfoldable pub run_by_kind :
      Store
      → W
      → Text
      → Text
      → ImportJobItem
      → ImportSourceItemKind
      → ImportEngineResult (Bool × Store) × W
  unfolding run_manifest_item run_bag_item
  run_by_kind s w job_id sheet_id item ImportSourceItemKind.manifest =
      run_manifest_item s w job_id item (attempt_id_of item)
  run_by_kind s w job_id sheet_id item ImportSourceItemKind.bag =
      run_bag_item s w sheet_id item (attempt_id_of item)
  run_by_kind s w job_id sheet_id item ImportSourceItemKind.manifest_bag =
      run_bag_item s w sheet_id item (attempt_id_of item)

  unfoldable pub run_job_item :
      Store → W → Text → Text → ImportJobItem → ImportEngineResult (Store × W)
  unfolding run_by_kind
  run_job_item s w job_id sheet_id item = do
    begun ← from_store (start_import_attempt s (start_input item) (source.clock w))
    forward (run_by_kind begun.1 w job_id sheet_id item item.source_item_kind)

  -- An item, and the job read again.
  unfoldable pub run_turn : Store → W → Text → Text → ImportJobItem → ImportEngineResult (Store × W)
  unfolding run_job_item
  run_turn s w job_id sheet_id item = do
    ran ← run_job_item s w job_id sheet_id item
    job ← or_fail (get_import_job_summary ran.0 job_id) (ImportEngineError.missing_job job_id)
    ok ran

  -- The end of the loop: the job is read once more.
  abbrev pub ended : Store → W → Text → ImportEngineResult (Store × W)
  ended t w job_id = do
    job ← or_fail (get_import_job_summary t job_id) (ImportEngineError.missing_job job_id)
    ok (t, w)

  -- The loop of `run_job`, on fuel: `none` where the fuel is spent.
  unfoldable pub run_items : ℕ → Store → W → Text → Text → Option (ImportEngineResult (Store × W))
  unfolding run_turn
  run_items zero s w job_id sheet_id = none
  run_items (suc fuel) s w job_id sheet_id =
      elim (claim_next_pending_import_job_item s job_id (source.clock w)) [
        | err problem ↦ some (err (ImportEngineError.store problem))
        | ok (none, t) ↦ some (ended t w job_id)
        | ok (some item, t) ↦ elim (run_turn t w job_id sheet_id item) [
          | err problem ↦ some (err problem)
          | ok (u, later) ↦ run_items fuel u later job_id sheet_id
        ]
      ]

  unfoldable pub run_job : ℕ → Store → W → Text → Option (ImportEngineResult (Store × W))
  unfolding run_items
  run_job fuel s w job_id = elim (get_import_job_summary s job_id) [
    | none ↦ some (err (ImportEngineError.missing_job job_id))
    | some job ↦ run_items fuel s w job_id job.sheet_id
  ]

  unfoldable pub retry_failed_and_run :
      ℕ → Store → W → Text → ℕ → Option (ImportEngineResult (Store × W))
  unfolding run_job
  retry_failed_and_run fuel s w job_id max_attempts =
      elim (retry_import_job_failed s job_id max_attempts (source.clock w)) [
        | err problem ↦ some (err (ImportEngineError.store problem))
        | ok (targets, t) ↦ run_job fuel t w job_id
      ]
