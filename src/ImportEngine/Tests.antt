-- ===== src/ImportEngine/Tests.antt =====
-- import_engine.rs: an import on a small store, with a service that answers from a table.
use ship_flow_tauri.Prelude.{
  ℕ, ◌+◌, Text, bytes, text_beq, none, some, List, [], ◌∷◌, ◌++◌, ◌≡◌, refl, arith, text_eq, sum_by,
}
use ship_flow_tauri.Prelude.Table.{find_where, any, contains, update_where, delete_where}
use ship_flow_tauri.Prelude.Outcome.{ok}
use ship_flow_tauri.Storage.Tables.{
  Store, ImportKind, ImportMode, ImportJob, ImportJobStatus, ImportJobItem, ImportJobItemStatus,
  ImportSourceItemKind,
}
use ship_flow_tauri.Storage.Jobs.{
  recounted, recompute_import_job_counts_on, count_import_items_by_status_on, job_status_of,
  get_import_job_summary, item_of_job,
}
use ship_flow_tauri.Storage.Jobs.Lifecycle.{create_import_job_with_items}
use ship_flow_tauri.Storage.Jobs.Counts.{IsConsistent}
use ship_flow_tauri.Storage.Rows.Positions.{max_position_plus_one}
use ship_flow_tauri.ImportEngine.{BagResponse, ManifestResponse, ImportSourcePreviewResult}
use ship_flow_tauri.ImportEngine.Sources.{
  dedupe_non_empty, extend_unique_bounded, validate_import_source_ids,
}
use ship_flow_tauri.ImportEngine.Sources.Distinct.{first_occurrences, cleaned, dedupe_non_empty-eq}
use ship_flow_tauri.ImportEngine.Sources.Bounds.{AreSourceIds, validate-AreSourceIds}
use ship_flow_tauri.ImportEngine.Sources.Previews.{Answers, preview_manifest_sources, preview_item}
use ship_flow_tauri.ImportEngine.Sources.Previews.Answered.{
  preview_manifest_sources-AreAnswered, AreAnswered, bag_lists, manifest_lists,
}
use ship_flow_tauri.ImportEngine.Plans.{SheetRowPlan, plan_unique_sheet_rows}
use ship_flow_tauri.ImportEngine.Plans.Fresh.{IsPlan, plan_unique_sheet_rows_total}
use ship_flow_tauri.ImportEngine.Runs.{ImportLookupSource, run_job}
use ship_flow_tauri.ImportEngine.Runs.Ends.{IsFinished, run_job-IsFinished}
use ship_flow_tauri.ImportEngine.Creation.{
  CreateImportJobPlan, AreCreated, create_job, create_job-IsConsistent,
}

abbrev given : List Text
given = bytes " B1 " ∷ bytes "B2" ∷ bytes "" ∷ bytes "B1" ∷ []

abbrev accepted : List Text
accepted = bytes "B1" ∷ bytes "B2" ∷ []

dedupe_non_empty-eq_example : dedupe_non_empty given ≡ first_occurrences (cleaned given)
dedupe_non_empty-eq_example = dedupe_non_empty-eq given

validate_runs : validate_import_source_ids given ≡ ok accepted
unfolding validate_import_source_ids contains text_beq
validate_runs = refl

validate-AreSourceIds_example : AreSourceIds given accepted
validate-AreSourceIds_example = validate-AreSourceIds given accepted validate_runs

extend_runs :
    extend_unique_bounded accepted (bytes "B2" ∷ bytes "B3" ∷ [])
    ≡ ok (bytes "B1" ∷ bytes "B2" ∷ bytes "B3" ∷ [])
unfolding extend_unique_bounded contains text_beq
extend_runs = refl

abbrev bag : BagResponse
bag = record { items = record { no_resi = some (bytes "P1") } ∷ record { no_resi = none } ∷ [] }

abbrev manifest : ManifestResponse
manifest = record { items = record { nomor_kantung = some (bytes "B1") } ∷ [] }

abbrev bag_answers : List Text → Answers BagResponse
bag_answers [] = []
bag_answers (id ∷ ids) = (id, ok bag) ∷ bag_answers ids

abbrev manifest_answers : Answers ManifestResponse
manifest_answers = (bytes "M1", ok manifest) ∷ []

abbrev manifest_preview : ImportSourcePreviewResult
manifest_preview = record {
  kind = ImportKind.manifest;
  source_items =
      preview_item (bytes "M1") ImportSourceItemKind.manifest ImportJobItemStatus.succeeded
        (bytes "B1" ∷ []) none
      ∷ [];
  manifest_bags =
      preview_item (bytes "B1") ImportSourceItemKind.manifest_bag ImportJobItemStatus.succeeded
        (bytes "P1" ∷ []) none
      ∷ [];
  tracking_ids = bytes "P1" ∷ [];
}

manifest_preview_runs : preview_manifest_sources manifest_answers bag_answers ≡ ok manifest_preview
unfolding preview_manifest_sources contains text_beq
manifest_preview_runs = refl

preview_manifest_sources-AreAnswered_example :
    (bag_ids : List Text) × AreAnswered manifest_lists manifest_answers bag_ids
    × AreAnswered bag_lists (bag_answers bag_ids) manifest_preview.tracking_ids
preview_manifest_sources-AreAnswered_example =
    preview_manifest_sources-AreAnswered manifest_answers bag_answers manifest_preview
      manifest_preview_runs

abbrev empty_store : Store
empty_store = record {
  sheet_ids = bytes "s" ∷ [];
  blob_ids = [];
  sheet_rows = [];
  records = [];
  jobs = [];
  items = [];
  attempts = [];
}

empty_store-IsConsistent : IsConsistent empty_store
empty_store-IsConsistent = record { unique = tt; counted = tt }

plan_unique_sheet_rows_total_example :
    (plan : SheetRowPlan) × (plan_unique_sheet_rows empty_store (bytes "s") accepted ≡ ok plan)
    × IsPlan empty_store
        (bytes "s")
        (max_position_plus_one (bytes "s") empty_store.sheet_rows)
        accepted
        plan
unfolding max_position_plus_one
plan_unique_sheet_rows_total_example =
    plan_unique_sheet_rows_total empty_store (bytes "s") accepted (omega arith) (omega arith)

abbrev service : ImportLookupSource ℕ
service = record {
  fetch_bag = λ w id. (ok bag, w + 1);
  fetch_manifest = λ w id. (ok manifest, w + 1);
  write_bag = λ response. none;
  write_manifest = λ response. none;
  row_generation = λ w id. id;
  clock = λ w. w;
}

abbrev import_plan : CreateImportJobPlan
import_plan = record {
  job_id = bytes "j";
  sheet_id = bytes "s";
  kind = ImportKind.bag;
  ids = given;
  mode = ImportMode.append;
}

abbrev created_item : Text → Text → ℕ → ImportJobItem
created_item id source_id position = record {
  item_id = id;
  job_id = bytes "j";
  source_item_id = source_id;
  source_item_kind = ImportSourceItemKind.bag;
  position = position;
  status = ImportJobItemStatus.pending;
  tracking_ids = [];
  sheet_row_ids = [];
  error_message = none;
  attempt_count = 0;
}

abbrev created_job : ImportJob
created_job = record {
  job_id = bytes "j";
  sheet_id = bytes "s";
  kind = ImportKind.bag;
  mode = ImportMode.append;
  status = ImportJobStatus.running;
  total_count = 2;
  success_count = 0;
  failed_count = 0;
  pending_count = 2;
  completed_at = none;
  cancelled_at = none;
}

abbrev created_store : Store
created_store = record empty_store {
  jobs = created_job ∷ [];
  items =
      created_item (bytes "j:source:0") (bytes "B1") 0
      ∷ created_item (bytes "j:source:1") (bytes "B2") 1
      ∷ [];
}

create_runs : create_job empty_store import_plan 7 ≡ ok (created_job, created_store)
unfolding create_job create_import_job_with_items recompute_import_job_counts_on recounted
    count_import_items_by_status_on job_status_of get_import_job_summary sum_by find_where any
    update_where delete_where contains text_beq
create_runs = refl

create_job-IsConsistent_example :
    IsConsistent created_store
    × ((source_ids : List Text) × (created : List ImportJobItem) × AreSourceIds given source_ids
        × AreCreated import_plan 0 source_ids created
        × (created_store.items
            ≡ delete_where (item_of_job import_plan.job_id) empty_store.items ++ created))
create_job-IsConsistent_example =
    create_job-IsConsistent empty_store import_plan 7 created_job created_store create_runs
      empty_store-IsConsistent

run_job-IsFinished_example :
    IsFinished (bytes "j") (run_job service 100001 created_store 7 (bytes "j"))
unfolding sum_by text_beq
run_job-IsFinished_example =
    run_job-IsFinished service 100001 created_store 7 (bytes "j")
      (create_job-IsConsistent empty_store import_plan 7 created_job created_store create_runs
        empty_store-IsConsistent).0
      (omega arith)
