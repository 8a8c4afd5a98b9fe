-- ===== src/ImportEngine/Sources/Previews.antt =====
-- import_engine.rs: the preview of an import, from the answers for its ids. The calls that fetch
-- them are parameters: `results` are their answers, in order.
pub mod Answered
use ship_flow_tauri.Prelude.{
  ◌≤◌, Text, Bool, false, Option, none, some, List, [], ◌∷◌, ◌++◌, ◌≡◌, refl, sym, ap, ◌∙◌, subst,
  ◌==◌, not, ◌&&◌, ◌||◌, length, text_eq, Bool-cases, Option-cases, inl, inr, arith,
}
use ship_flow_tauri.Prelude.Trim.{trim}
use ship_flow_tauri.Prelude.Table.{any, contains}
use ship_flow_tauri.Prelude.Outcome.{Outcome, ok, err, ◌>>=◌, >>=-eq-ok, ok-injective}
use ship_flow_tauri.Storage.Tables.{ImportKind, ImportSourceItemKind, ImportJobItemStatus}
use ship_flow_tauri.ImportEngine.{
  ImportEngineResult, ImportLookupFailure, ImportSourcePreviewItem, ImportSourcePreviewResult,
  BagItem, ManifestItem, BagResponse, ManifestResponse, max_import_job_items,
}
use ship_flow_tauri.ImportEngine.Sources.{
  present, dedupe_non_empty, extend_unique_bounded, extract_bag_tracking_ids,
  extract_manifest_bag_ids,
}
use ship_flow_tauri.ImportEngine.Sources.Distinct.{
  IsDistinct, extend_unique_bounded-IsDistinct, cleaned, cleaned_empty, cleaned_filled,
  dedupe_non_empty-eq, contains-first_occurrences,
}

abbrev pub Answers : Type 0 → Type 0
Answers R = List (Text × Outcome ImportLookupFailure R)

abbrev pub preview_item :
    Text
    → ImportSourceItemKind
    → ImportJobItemStatus
    → List Text
    → Option Text
    → ImportSourcePreviewItem
preview_item source_item_id source_item_kind status tracking_ids error_message = record {
  source_item_id = source_item_id;
  source_item_kind = source_item_kind;
  status = status;
  tracking_ids = tracking_ids;
  error_message = error_message;
}

-- The loop over the answers, with the items and the ids so far.
unfoldable pub preview_loop :
    {R : Type 0}
    → (R → List Text)
    → ImportSourceItemKind
    → Answers R
    → List ImportSourcePreviewItem
    → List Text
    → ImportEngineResult (List ImportSourcePreviewItem × List Text)
unfolding extend_unique_bounded
preview_loop extract kind [] items ids = ok (items, ids)
preview_loop extract kind ((id, ok response) ∷ rest) items ids = do
  more ← extend_unique_bounded ids (extract response)
  preview_loop extract kind rest
      (items ++ (preview_item id kind ImportJobItemStatus.succeeded (extract response) none ∷ []))
      more
preview_loop extract kind ((id, err failure) ∷ rest) items ids =
    preview_loop extract kind rest
      (items ++ (preview_item id kind ImportJobItemStatus.failed [] (some failure.message) ∷ []))
      ids

unfoldable pub preview_bag_sources :
    Answers BagResponse → ImportEngineResult ImportSourcePreviewResult
unfolding preview_loop extract_bag_tracking_ids
preview_bag_sources results = do
  found ← preview_loop extract_bag_tracking_ids ImportSourceItemKind.bag results [] []
  ok (record {
    kind = ImportKind.bag;
    source_items = found.0;
    manifest_bags = [];
    tracking_ids = found.1;
  })

-- `fetch_bags` answers for the bags of the manifests.
unfoldable pub preview_manifest_sources :
    Answers ManifestResponse
    → (List Text → Answers BagResponse)
    → ImportEngineResult ImportSourcePreviewResult
unfolding preview_loop extract_bag_tracking_ids extract_manifest_bag_ids
preview_manifest_sources results fetch_bags = do
  manifests ← preview_loop extract_manifest_bag_ids ImportSourceItemKind.manifest results [] []
  bags ←
      preview_loop extract_bag_tracking_ids ImportSourceItemKind.manifest_bag
        (fetch_bags manifests.1) [] []
  ok (record {
    kind = ImportKind.manifest;
    source_items = manifests.0;
    manifest_bags = bags.0;
    tracking_ids = bags.1;
  })

abbrev pub lists_id : Text → ImportSourcePreviewItem → Bool
lists_id id item = contains id item.tracking_ids

-- The ids are those that the items list, each once, and within the limit.
pub record AreListed (items : List ImportSourcePreviewItem) (ids : List Text) : Type 0 where
  pub distinct : IsDistinct ids
  pub same : (id : Text) → contains id ids ≡ any (lists_id id) items
  pub few : length ids ≤ max_import_job_items

any-append :
    (p : ImportSourcePreviewItem → Bool) (items : List ImportSourcePreviewItem)
    (item : ImportSourcePreviewItem)
    → any p (items ++ (item ∷ [])) ≡ (any p items || p item)
unfolding any
any-append p [] item = ground arith
any-append p (x ∷ items) item = ground (arith, any-append p items item)

pub preview_loop-AreListed :
    {R : Type 0} (extract : R → List Text) (kind : ImportSourceItemKind) (answers : Answers R)
    (items : List ImportSourcePreviewItem) (ids : List Text)
    (found : List ImportSourcePreviewItem × List Text)
    → preview_loop extract kind answers items ids ≡ ok found
    → AreListed items ids
    → AreListed found.0 found.1
unfolding preview_loop contains
preview_loop-AreListed extract kind [] items ids found h listed =
    let e : (items, ids) ≡ found = cc in subst (λ f. AreListed f.0 f.1) e listed
preview_loop-AreListed extract kind ((id, err failure) ∷ rest) items ids found h listed =
    let item = preview_item id kind ImportJobItemStatus.failed [] (some failure.message) in
    preview_loop-AreListed extract kind rest (items ++ (item ∷ [])) ids found h (record {
      distinct = listed.distinct;
      same = λ x. ground (arith, listed.same x, any-append (lists_id x) items item);
      few = listed.few;
    })
preview_loop-AreListed extract kind ((id, ok response) ∷ rest) items ids found h listed =
    let (more, extended, h1) = >>=-eq-ok (extend_unique_bounded ids (extract response)) _ h in
    let item = preview_item id kind ImportJobItemStatus.succeeded (extract response) none in
    let (distinct, both, few) =
      extend_unique_bounded-IsDistinct ids (extract response) more extended listed.distinct in
    preview_loop-AreListed extract kind rest (items ++ (item ∷ [])) more found h1 (record {
      distinct = distinct;
      same = λ x. ground (arith, both x, listed.same x, any-append (lists_id x) items item);
      few = few listed.few;
    })

pub none_listed : AreListed [] []
unfolding contains any
none_listed = record { distinct = tt; same = λ id. refl; few = omega arith }

-- A preview of bags lists each tracking id once: those of the bags that were found, and no other,
-- and at most 100,000.
pub preview_bag_sources-AreListed :
    (results : Answers BagResponse) (preview : ImportSourcePreviewResult)
    → preview_bag_sources results ≡ ok preview
    → AreListed preview.source_items preview.tracking_ids
unfolding preview_bag_sources
preview_bag_sources-AreListed results preview h =
    let (found, ran, h1) =
      >>=-eq-ok (preview_loop extract_bag_tracking_ids ImportSourceItemKind.bag results [] []) _
        h in
    let listed = preview_loop-AreListed _ _ results [] [] found ran none_listed in
    let e : _ ≡ preview = ok-injective h1 in
    subst (λ (p : ImportSourcePreviewResult). AreListed p.source_items p.tracking_ids) e listed
