-- ===== src/ImportEngine/Sources.antt =====
-- import_engine.rs: the ids of a request, and the preview of what they stand for.
pub mod Distinct
pub mod Bounds
pub mod Previews
use ship_flow_tauri.Prelude.{
  ℕ, suc, ◌+◌, Text, bytes, Bool, true, false, Option, none, some, List, [], ◌∷◌, ◌++◌, ◌==◌,
  nat_eq, text_eq, ltb, leb, not, ◌&&◌, ◌||◌, if◌then◌else◌, length, saturating_add,
}
use ship_flow_tauri.Prelude.Trim.{trim}
use ship_flow_tauri.Prelude.Table.{contains}
use ship_flow_tauri.Prelude.Outcome.{ok, err, ◌>>=◌, ◌>>◌, guard}
use ship_flow_tauri.ImportEngine.{
  max_import_source_ids, max_import_job_items, max_import_source_id_bytes, max_import_request_bytes,
  ImportEngineResult, invalid_input, BagItem, BagResponse, ManifestItem, ManifestResponse,
}

-- `char::is_control` on UTF-8: U+0000 to U+001F, U+007F, and U+0080 to U+009F in two bytes.
unfoldable pub has_control : Text → Bool
has_control [] = false
has_control (a ∷ []) = ltb a 32 || a == 127
has_control (a ∷ b ∷ rest) =
    ltb a 32 || (a == 127 || (a == 194 && (leb 128 b && leb b 159) || has_control (b ∷ rest)))

-- The loop, with what was seen and what was pushed.
unfoldable pub dedupe_loop : List Text → List Text → List Text → List Text
unfolding trim
dedupe_loop seen result [] = result
dedupe_loop seen result (given ∷ rest) =
    let value = trim given in
    elim (value == [] || contains value seen) [
      | true ↦ dedupe_loop seen result rest
      | false ↦ dedupe_loop (value ∷ seen) (result ++ (value ∷ [])) rest
    ]

unfoldable pub dedupe_non_empty : List Text → List Text
unfolding dedupe_loop
dedupe_non_empty values = dedupe_loop [] [] values

unfoldable pub check_source_ids : ℕ → List Text → ImportEngineResult (Unit {0})
unfolding trim has_control
check_source_ids total_bytes [] = ok tt
check_source_ids total_bytes (id ∷ ids) = do
  let trimmed = trim id
  let next = saturating_add total_bytes (length trimmed)
  guard (leb (length trimmed) max_import_source_id_bytes)
      (invalid_input (bytes "Import source ID exceeds 64 bytes."))
  guard (not (has_control trimmed))
      (invalid_input (bytes "Import source ID contains control characters."))
  guard (leb next max_import_request_bytes)
      (invalid_input (bytes "Import request exceeds 1048576 bytes."))
  check_source_ids next ids

unfoldable pub validate_import_source_ids : List Text → ImportEngineResult (List Text)
unfolding check_source_ids dedupe_non_empty
validate_import_source_ids ids = do
  guard (leb (length ids) max_import_source_ids)
      (invalid_input (bytes "Import request exceeds 10000 source IDs."))
  check_source_ids 0 ids
  guard (leb (length (dedupe_non_empty ids)) max_import_source_ids)
      (invalid_input (bytes "Import request exceeds 10000 unique source IDs."))
  ok (dedupe_non_empty ids)

unfoldable pub extend_loop : List Text → List Text → List Text → ImportEngineResult (List Text)
extend_loop seen target [] = ok target
extend_loop seen target (value ∷ values) = elim (contains value seen) [
  | true ↦ extend_loop seen target values
  | false ↦ elim (leb max_import_job_items (length target)) [
    | true ↦ err (invalid_input (bytes "Import preview exceeds 100000 unique items."))
    | false ↦ extend_loop (value ∷ seen) (target ++ (value ∷ [])) values
  ]
]

unfoldable pub extend_unique_bounded : List Text → List Text → ImportEngineResult (List Text)
unfolding extend_loop
extend_unique_bounded target values = extend_loop target target values

-- `filter_map` of an optional field.
unfoldable pub present {ℓ} : {A : Type ℓ} → (A → Option Text) → List A → List Text
present f [] = []
present f (x ∷ xs) = let rest = present f xs in elim (f x) [ none ↦ rest | some id ↦ id ∷ rest ]

unfoldable pub extract_bag_tracking_ids : BagResponse → List Text
unfolding present dedupe_non_empty
extract_bag_tracking_ids response =
    dedupe_non_empty (present (λ (item : BagItem). item.no_resi) response.items)

unfoldable pub extract_manifest_bag_ids : ManifestResponse → List Text
unfolding present dedupe_non_empty
extract_manifest_bag_ids response =
    dedupe_non_empty (present (λ (item : ManifestItem). item.nomor_kantung) response.items)
