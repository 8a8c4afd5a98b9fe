-- ===== src/ImportEngine.antt =====
-- crates/shipflow-workspace-engine/src/import_engine.rs: imports of bags and manifests, from the ids
-- that a user gives to the rows of a sheet. The service that looks bags and manifests up is a
-- parameter.
pub mod Sources
pub mod Plans
pub mod Creation
pub mod Runs
mod Tests
use ship_flow_tauri.Prelude.{ℕ, ◌*◌, Text, Option, List}
use ship_flow_tauri.Prelude.Outcome.{Outcome}
use ship_flow_tauri.Storage.Tables.{
  WorkspaceStoreError, ImportSourceItemKind, ImportJobItemStatus, ImportKind,
}

abbrev pub max_import_source_ids : ℕ
max_import_source_ids = 10000

abbrev pub max_import_job_items : ℕ
max_import_job_items = 100000

abbrev pub max_import_source_id_bytes : ℕ
max_import_source_id_bytes = 64

abbrev pub max_import_request_bytes : ℕ
max_import_request_bytes = 1024 * 1024

pub data ImportEngineError : Type 0 where
  store : WorkspaceStoreError → ImportEngineError
  missing_job json blob invalid_input : Text → ImportEngineError

abbrev pub ImportEngineResult {ℓ} : Type ℓ → Type ℓ
ImportEngineResult A = Outcome ImportEngineError A

-- What the engine reads of a response: the ids of its items.
pub record BagItem : Type 0 where
  pub no_resi : Option Text

pub record BagResponse : Type 0 where
  pub items : List BagItem

pub record ManifestItem : Type 0 where
  pub nomor_kantung : Option Text

pub record ManifestResponse : Type 0 where
  pub items : List ManifestItem

pub record ImportLookupFailure : Type 0 where
  pub message : Text

pub record ImportSourcePreviewItem : Type 0 where
  pub source_item_id : Text
  pub source_item_kind : ImportSourceItemKind
  pub status : ImportJobItemStatus
  pub tracking_ids : List Text
  pub error_message : Option Text

-- The response bodies as text, `raw_response`, are left out.
pub record ImportSourcePreviewResult : Type 0 where
  pub kind : ImportKind
  pub source_items : List ImportSourcePreviewItem
  pub manifest_bags : List ImportSourcePreviewItem
  pub tracking_ids : List Text
