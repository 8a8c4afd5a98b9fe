-- ===== src/ImportEngine/Creation.antt =====
-- import_engine.rs: a job from the ids of a request.
use ship_flow_tauri.Prelude.{
  ℕ, suc, ◌%◌, ◌^◌, Text, bytes, List, [], ◌∷◌, ◌++◌, ◌≡◌, refl, sym, ap, subst, ◌∙◌, length, map,
}
use ship_flow_tauri.Prelude.Table.{delete_where}
use ship_flow_tauri.Prelude.Decimal.{decimal}
use ship_flow_tauri.Prelude.Outcome.{ok, ◌>>=◌, or_fail, >>=-eq-ok, or_fail->>=-eq-ok, ok-injective}
use ship_flow_tauri.Storage.Tables.{
  Store, ImportJob, ImportKind, ImportMode, ImportSourceItemKind, ImportJobItem,
  ImportJobItemStatus,
}
use ship_flow_tauri.Storage.Jobs.{as_u32, get_import_job_summary, item_of_job}
use ship_flow_tauri.Storage.Jobs.Counts.{IsConsistent}
use ship_flow_tauri.Storage.Jobs.Attempts.{CreateImportJobItemInput, pending_item}
use ship_flow_tauri.Storage.Jobs.Lifecycle.{CreateImportJobInput, create_import_job_with_items}
use ship_flow_tauri.Storage.Jobs.Lifecycle.Created.{create-IsConsistent, create-items}
use ship_flow_tauri.ImportEngine.{ImportEngineResult, ImportEngineError}
use ship_flow_tauri.ImportEngine.Sources.{validate_import_source_ids}
use ship_flow_tauri.ImportEngine.Sources.Bounds.{AreSourceIds, validate-AreSourceIds}
use ship_flow_tauri.ImportEngine.Runs.{from_store}
use ship_flow_tauri.ImportEngine.Runs.Turns.{from_store-ok}

pub record CreateImportJobPlan : Type 0 where
  pub job_id : Text
  pub sheet_id : Text
  pub kind : ImportKind
  pub ids : List Text
  pub mode : ImportMode

abbrev pub source_kind_of : ImportKind → ImportSourceItemKind
source_kind_of ImportKind.bag = ImportSourceItemKind.bag
source_kind_of ImportKind.manifest = ImportSourceItemKind.manifest

-- `enumerate`, with `{job_id}:source:{position}` as the id of an item.
unfoldable pub source_items : CreateImportJobPlan → ℕ → List Text → List CreateImportJobItemInput
unfolding decimal
source_items plan position [] = []
source_items plan position (source_id ∷ rest) =
    record {
      item_id = plan.job_id ++ (bytes ":source:" ++ decimal position);
      job_id = plan.job_id;
      source_item_id = source_id;
      source_item_kind = source_kind_of plan.kind;
      position = as_u32 position;
    }
    ∷ source_items plan (suc position) rest

abbrev pub job_input : CreateImportJobPlan → List Text → CreateImportJobInput
job_input plan source_ids = record {
  job_id = plan.job_id;
  sheet_id = plan.sheet_id;
  kind = plan.kind;
  mode = plan.mode;
  total_count = as_u32 (length source_ids);
}

unfoldable pub create_job : Store → CreateImportJobPlan → ℕ → ImportEngineResult (ImportJob × Store)
unfolding validate_import_source_ids source_items
create_job s plan now = do
  source_ids ← validate_import_source_ids plan.ids
  created ← from_store (
      create_import_job_with_items s (job_input plan source_ids) (source_items plan 0 source_ids)
        now)
  job ←
      or_fail (get_import_job_summary created.1 plan.job_id)
        (ImportEngineError.missing_job plan.job_id)
  ok (job, created.1)

-- One new item for each id, in order: pending, without an attempt, and at the next position.
abbrev pub AreCreated : CreateImportJobPlan → ℕ → List Text → List ImportJobItem → Type 0
AreCreated plan position [] [] = Unit
AreCreated plan position (id ∷ ids) (x ∷ xs) =
    (x.source_item_id ≡ id)
    × (x.source_item_kind ≡ source_kind_of plan.kind)
    × (x.job_id ≡ plan.job_id)
    × (x.position ≡ position % 2 ^ 32)
    × (x.status ≡ ImportJobItemStatus.pending)
    × (x.attempt_count ≡ 0)
    × AreCreated plan (suc position) ids xs
AreCreated plan position _ _ = ⊥

source_items-AreCreated :
    (plan : CreateImportJobPlan) (position : ℕ) (ids : List Text)
    → AreCreated plan position ids (map pending_item (source_items plan position ids))
unfolding source_items
source_items-AreCreated plan position [] = tt
source_items-AreCreated plan position (id ∷ ids) =
    (refl, refl, refl, refl, refl, refl, source_items-AreCreated plan (suc position) ids)

-- A job that is created has one pending item for each id of the request that is accepted, in order,
-- and no other; the items of other jobs stay. Item ids stay unique, and the counts and status of
-- every job are those of its items.
pub create_job-IsConsistent :
    (s : Store) (plan : CreateImportJobPlan) (now : ℕ) (job : ImportJob) (t : Store)
    → create_job s plan now ≡ ok (job, t)
    → IsConsistent s
    → IsConsistent t
      × ((source_ids : List Text) × (created : List ImportJobItem) × AreSourceIds plan.ids
            source_ids
          × AreCreated plan 0 source_ids created
          × (t.items ≡ delete_where (item_of_job plan.job_id) s.items ++ created))
unfolding create_job
create_job-IsConsistent s plan now job t h c =
    let (ids, valid, h1) = >>=-eq-ok (validate_import_source_ids plan.ids) _ h in
    let input = job_input plan ids in
    let items = source_items plan 0 ids in
    let (created, made, h2) =
      >>=-eq-ok (from_store (create_import_job_with_items s input items now)) _ h1 in
    let stored = from_store-ok (create_import_job_with_items s input items now) created made in
    let (found, _, h3) = or_fail->>=-eq-ok (get_import_job_summary created.1 plan.job_id) _ h2 in
    let e : created.1 ≡ t = ap (λ (p : ImportJob × Store). p.1) (ok-injective h3) in
    (
      subst IsConsistent e (create-IsConsistent s input items now created.0 created.1 stored c),
      (
        ids,
        map pending_item items,
        validate-AreSourceIds plan.ids ids valid,
        source_items-AreCreated plan 0 ids,
        ap (λ (v : Store). v.items) (sym e)
            ∙ create-items s input items now created.0 created.1 stored,
      ),
    )
