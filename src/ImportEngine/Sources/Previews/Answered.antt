-- ===== src/ImportEngine/Sources/Previews/Answered.antt =====
-- import_engine.rs: the ids of a preview of manifests, against the answers themselves.
use ship_flow_tauri.Prelude.{
  ◌≤◌, Text, Bool, false, Option, none, some, List, [], ◌∷◌, ◌≡◌, refl, sym, ap, ◌∙◌, subst, ◌==◌,
  not, ◌&&◌, ◌||◌, length, text_eq, Bool-cases, Option-cases, inl, inr, arith,
}
use ship_flow_tauri.Prelude.Trim.{trim}
use ship_flow_tauri.Prelude.Table.{any, contains}
use ship_flow_tauri.Prelude.Outcome.{Outcome, ok, err, >>=-eq-ok, ok-injective}
use ship_flow_tauri.Storage.Tables.{ImportSourceItemKind}
use ship_flow_tauri.ImportEngine.{
  ImportLookupFailure, ImportSourcePreviewItem, ImportSourcePreviewResult, BagItem, ManifestItem,
  BagResponse, ManifestResponse, max_import_job_items,
}
use ship_flow_tauri.ImportEngine.Sources.{
  present, dedupe_non_empty, extend_unique_bounded, extract_bag_tracking_ids,
  extract_manifest_bag_ids,
}
use ship_flow_tauri.ImportEngine.Sources.Distinct.{
  IsDistinct, extend_unique_bounded-IsDistinct, cleaned, cleaned_empty, cleaned_filled,
  dedupe_non_empty-eq, contains-first_occurrences,
}
use ship_flow_tauri.ImportEngine.Sources.Previews.{
  Answers, preview_loop, preview_manifest_sources, preview_loop-AreListed, none_listed,
}

-- Whether the answer of a request lists an id.
abbrev pub answer_lists :
    {R : Type 0} → (Text → R → Bool) → Text → Text × Outcome ImportLookupFailure R → Bool
answer_lists lists id (asked, err failure) = false
answer_lists lists id (asked, ok response) = lists id response

-- A field that is there, not blank, and, trimmed, the id.
abbrev pub field_is : Text → Option Text → Bool
field_is id none = false
field_is id (some text) = not (trim text == []) && trim text == id

abbrev pub bag_lists : Text → BagResponse → Bool
bag_lists id bag = any (λ (item : BagItem). field_is id item.no_resi) bag.items

abbrev pub manifest_lists : Text → ManifestResponse → Bool
manifest_lists id manifest =
    any (λ (item : ManifestItem). field_is id item.nomor_kantung) manifest.items

-- The ids are those that the answers list, each once, and within the limit.
pub record AreAnswered {R : Type 0} (lists : Text → R → Bool) (answers : Answers R)
    (ids : List Text) : Type 0 where
  pub distinct : IsDistinct ids
  pub same : (id : Text) → contains id ids ≡ any (answer_lists lists id) answers
  pub few : length ids ≤ max_import_job_items

-- One element of `present`, and of what it lists.
module _ {A : Type 0} (field : A → Option Text) (x : A) (xs : List A) where
  present-none : field x ≡ none → present field (x ∷ xs) ≡ present field xs
  unfolding present
  present-none e = rw (e, present) refl

  present-some :
      (text : Text) → field x ≡ some text → present field (x ∷ xs) ≡ text ∷ present field xs
  unfolding present
  present-some text e = rw (e, present) refl

contains-filled :
    (text id : Text) (rest : List Text)
    → contains id (cleaned (text ∷ rest)) ≡ (field_is id (some text) || contains id (cleaned rest))
unfolding contains
contains-filled text id rest = elim (Bool-cases (trim text == [])) [
  | inl blank ↦ ap (contains id) (cleaned_empty text rest blank) ∙ ground (arith, blank)
  | inr filled ↦ ap (contains id) (cleaned_filled text rest filled) ∙ ground (arith, filled)
]

none_cleaned :
    {A : Type 0} (id : Text) (field : A → Option Text)
    → contains id (cleaned (present field [])) ≡ false
unfolding present contains cleaned
none_cleaned id field = refl

contains-cleaned :
    {A : Type 0} (field : A → Option Text) (id : Text) (items : List A)
    → contains id (cleaned (present field items)) ≡ any (λ x. field_is id (field x)) items
unfolding any
contains-cleaned field id [] = none_cleaned id field
contains-cleaned field id (x ∷ xs) =
    let rest = contains-cleaned field id xs in
    elim (Option-cases (field x)) [
      | inl missing ↦
          ap (λ ids. contains id (cleaned ids)) (present-none field x xs missing)
          ∙ rest
          ∙ ground (arith, missing)
      | inr (text, there) ↦
          ap (λ ids. contains id (cleaned ids)) (present-some field x xs text there)
          ∙ contains-filled text id (present field xs)
          ∙ ground (arith, there, rest)
    ]

contains-extracted :
    {A : Type 0} (field : A → Option Text) (id : Text) (items : List A)
    → contains id (dedupe_non_empty (present field items)) ≡ any (λ x. field_is id (field x)) items
contains-extracted field id items =
    ap (contains id) (dedupe_non_empty-eq (present field items))
    ∙ contains-first_occurrences id (cleaned (present field items))
    ∙ contains-cleaned field id items

-- The ids after the loop: those before it and those of the answers.
preview_loop-adds :
    {R : Type 0} (extract : R → List Text) (lists : Text → R → Bool) (kind : ImportSourceItemKind)
    (answers : Answers R) (items : List ImportSourcePreviewItem) (ids : List Text)
    (found : List ImportSourcePreviewItem × List Text)
    → ((id : Text) (response : R) → contains id (extract response) ≡ lists id response)
    → preview_loop extract kind answers items ids ≡ ok found
    → IsDistinct ids
    → (id : Text) → contains id found.1 ≡ (contains id ids || any (answer_lists lists id) answers)
unfolding preview_loop any
preview_loop-adds extract lists kind [] items ids found same h distinct id =
    let e : (items, ids) ≡ found = cc in
    ap (λ (f : List ImportSourcePreviewItem × List Text). contains id f.1) (sym e) ∙ ground arith
preview_loop-adds extract lists kind ((asked, err failure) ∷ rest) items ids found same h distinct
      id =
    preview_loop-adds extract lists kind rest _ ids found same h distinct id
preview_loop-adds extract lists kind ((asked, ok response) ∷ rest) items ids found same h distinct
      id =
    let (more, extended, h1) = >>=-eq-ok (extend_unique_bounded ids (extract response)) _ h in
    let (distinct', both, _) =
      extend_unique_bounded-IsDistinct ids (extract response) more extended distinct in
    preview_loop-adds extract lists kind rest _ more found same h1 distinct' id
    ∙ ground (arith, both id, same id response)

preview_loop-AreAnswered :
    {R : Type 0} (extract : R → List Text) (lists : Text → R → Bool) (kind : ImportSourceItemKind)
    (answers : Answers R) (found : List ImportSourcePreviewItem × List Text)
    → ((id : Text) (response : R) → contains id (extract response) ≡ lists id response)
    → preview_loop extract kind answers [] [] ≡ ok found
    → AreAnswered lists answers found.1
unfolding contains
preview_loop-AreAnswered extract lists kind answers found same h =
    let listed = preview_loop-AreListed extract kind answers [] [] found h none_listed in
    record {
      distinct = listed.distinct;
      same = λ id. preview_loop-adds extract lists kind answers [] [] found same h tt id;
      few = listed.few;
    }

-- A preview of manifests lists each tracking id once: those of the bags that were found, and no
-- other, at most 100,000. The bags are fetched once for each bag id of the manifests that were found,
-- at most 100,000; the ids are those of the answers, trimmed, and blank ones are left out.
pub preview_manifest_sources-AreAnswered :
    (results : Answers ManifestResponse) (fetch_bags : List Text → Answers BagResponse)
    (preview : ImportSourcePreviewResult)
    → preview_manifest_sources results fetch_bags ≡ ok preview
    → (bag_ids : List Text) × AreAnswered manifest_lists results bag_ids
      × AreAnswered bag_lists (fetch_bags bag_ids) preview.tracking_ids
unfolding preview_manifest_sources extract_bag_tracking_ids extract_manifest_bag_ids
preview_manifest_sources-AreAnswered results fetch_bags preview h =
    let (manifests, first, h1) =
      >>=-eq-ok (preview_loop extract_manifest_bag_ids ImportSourceItemKind.manifest results [] [])
        _ h in
    let (bags, second, h2) =
      >>=-eq-ok
        (preview_loop extract_bag_tracking_ids ImportSourceItemKind.manifest_bag
          (fetch_bags manifests.1) [] [])
        _ h1 in
    let e : bags.1 ≡ preview.tracking_ids =
      ap (λ (p : ImportSourcePreviewResult). p.tracking_ids) (ok-injective h2) in
    (
      manifests.1,
      preview_loop-AreAnswered extract_manifest_bag_ids manifest_lists _ results manifests
          (λ id response.
            contains-extracted (λ (item : ManifestItem). item.nomor_kantung) id response.items)
          first,
      subst (AreAnswered bag_lists (fetch_bags manifests.1)) e (
          preview_loop-AreAnswered extract_bag_tracking_ids bag_lists _ (fetch_bags manifests.1)
            bags
            (λ id response. contains-extracted (λ (item : BagItem). item.no_resi) id response.items)
            second),
    )
