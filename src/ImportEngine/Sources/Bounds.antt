-- ===== src/ImportEngine/Sources/Bounds.antt =====
-- import_engine.rs: the limits of a request.
use ship_flow_tauri.Prelude.{
  ℕ, ◌+◌, ◌≤◌, Text, Bool, true, false, List, [], ◌∷◌, ◌≡◌, sym, subst, ap, ◌∙◌, ◌==◌, text_eq, not,
  filter, sum_by, All, Bool-cases, inl, inr, arith, length, leb, leb→le, le→leb, saturating_add,
  length-filter, sum_by-filter-le, sum_by_nil, sum_by_cons,
}
use ship_flow_tauri.Prelude.Trim.{trim}
use ship_flow_tauri.Prelude.Outcome.{ok, >>=-eq-ok, guard->>-eq-ok}
use ship_flow_tauri.ImportEngine.{
  max_import_source_ids, max_import_source_id_bytes, max_import_request_bytes,
}
use ship_flow_tauri.ImportEngine.Sources.{
  has_control, check_source_ids, dedupe_non_empty, validate_import_source_ids,
}
use ship_flow_tauri.ImportEngine.Sources.Distinct.{
  cleaned, cleaned_empty, cleaned_filled, first_occurrences, differs_from, IsDistinct,
  first_occurrences-IsDistinct, dedupe_non_empty-eq,
}

-- An id that a request may hold.
abbrev pub IsSourceId : Text → Type 0
IsSourceId id =
    ((id == []) ≡ false) × (length id ≤ max_import_source_id_bytes) × (has_control id ≡ false)

negated_false : (b : Bool) → not b ≡ true → b ≡ false
negated_false b h = ground (arith, h)

check_source_ids-bounds :
    (ids : List Text) (total : ℕ)
    → check_source_ids total ids ≡ ok tt
    → total ≤ max_import_request_bytes
    → All IsSourceId (cleaned ids)
      × (total + sum_by length (cleaned ids) ≤ max_import_request_bytes)
unfolding check_source_ids cleaned
check_source_ids-bounds [] total h fits = (tt, omega (arith, fits, sum_by_nil {A = Text} length))
check_source_ids-bounds (id ∷ ids) total h fits =
    let trimmed = trim id in
    let next = saturating_add total (length trimmed) in
    let (short, h1) = guard->>-eq-ok (leb (length trimmed) max_import_source_id_bytes) _ h in
    let (printable, h2) = guard->>-eq-ok (not (has_control trimmed)) _ h1 in
    let (within, h3) = guard->>-eq-ok (leb next max_import_request_bytes) _ h2 in
    let le : next ≤ max_import_request_bytes = leb→le next max_import_request_bytes within in
    let sum : next ≡ total + length trimmed = omega (arith, le) in
    let (good, bytes_fit) = check_source_ids-bounds ids next h3 le in
    elim (Bool-cases (trimmed == [])) [
      | inl empty ↦
          let e = sym (cleaned_empty id ids empty) in
          (
            subst (All IsSourceId) e good,
            subst (λ texts. total + sum_by length texts ≤ max_import_request_bytes) e
                (omega (arith, bytes_fit, sum)),
          )
      | inr filled ↦
          let e = sym (cleaned_filled id ids filled) in
          (
            subst (All IsSourceId) e (
              (
                filled,
                leb→le (length trimmed) max_import_source_id_bytes short,
                negated_false _ printable,
              ),
              good,
            ),
            subst (λ texts. total + sum_by length texts ≤ max_import_request_bytes) e
                (omega (arith, bytes_fit, sum, sum_by_cons length trimmed (cleaned ids))),
          )
    ]

module _ {κ} (P : Text → Type κ) where
  All-filter_texts : (p : Text → Bool) (values : List Text) → All P values → All P (filter p values)
  unfolding filter
  All-filter_texts p [] a = tt
  All-filter_texts p (x ∷ xs) a = elim (Bool-cases (p x)) [
    | inl keep ↦ rw keep (a.0, All-filter_texts p xs a.1)
    | inr drop ↦ rw drop (All-filter_texts p xs a.1)
  ]

  All-first_occurrences : (values : List Text) → All P values → All P (first_occurrences values)
  unfolding first_occurrences
  All-first_occurrences [] a = tt
  All-first_occurrences (x ∷ xs) a =
      (a.0, All-filter_texts (differs_from x) (first_occurrences xs) (All-first_occurrences xs a.1))

sum_by-first_occurrences :
    (values : List Text) → sum_by length (first_occurrences values) ≤ sum_by length values
unfolding first_occurrences sum_by
sum_by-first_occurrences [] = omega arith
sum_by-first_occurrences (x ∷ xs) = omega (
  arith,
  sum_by-filter-le length (differs_from x) (first_occurrences xs),
  sum_by-first_occurrences xs,
)

length-first_occurrences : (values : List Text) → length (first_occurrences values) ≤ length values
unfolding first_occurrences
length-first_occurrences [] = omega arith
length-first_occurrences (x ∷ xs) =
    omega
      (arith, length-filter (differs_from x) (first_occurrences xs), length-first_occurrences xs)

length-cleaned : (values : List Text) → length (cleaned values) ≤ length values
unfolding cleaned
length-cleaned [] = omega arith
length-cleaned (x ∷ xs) = elim (Bool-cases (trim x == [])) [
  | inl empty ↦ omega (arith, ap length (cleaned_empty x xs empty), length-cleaned xs)
  | inr filled ↦ omega (arith, ap length (cleaned_filled x xs filled), length-cleaned xs)
]

length-dedupe_non_empty : (ids : List Text) → length (dedupe_non_empty ids) ≤ length ids
length-dedupe_non_empty ids = omega (
  arith,
  ap length (dedupe_non_empty-eq ids),
  length-first_occurrences (cleaned ids),
  length-cleaned ids,
)

-- The ids of an accepted request.
pub record AreSourceIds (given ids : List Text) : Type 0 where
  pub same : ids ≡ first_occurrences (cleaned given)
  pub distinct : IsDistinct ids
  pub each : All IsSourceId ids
  pub few : length ids ≤ max_import_source_ids
  pub short : sum_by length ids ≤ max_import_request_bytes

-- The ids of an accepted request are the first occurrences of the trimmed, non-blank ones given, at
-- most 10,000 and of at most 1 MiB, each of 1 to 64 bytes without control characters, and no two
-- the same.
pub validate-AreSourceIds :
    (given ids : List Text) → validate_import_source_ids given ≡ ok ids → AreSourceIds given ids
unfolding validate_import_source_ids
validate-AreSourceIds given ids h =
    let (_, h1) = guard->>-eq-ok (leb (length given) max_import_source_ids) _ h in
    let (_, checked, h2) = >>=-eq-ok (check_source_ids 0 given) _ h1 in
    let (few, h3) =
      guard->>-eq-ok (leb (length (dedupe_non_empty given)) max_import_source_ids) _ h2 in
    let e : dedupe_non_empty given ≡ ids = ground (arith, h3) in
    let same = sym e ∙ dedupe_non_empty-eq given in
    let (good, short) = check_source_ids-bounds given 0 checked (omega arith) in
    record {
      same = same;
      distinct = subst IsDistinct (sym same) (first_occurrences-IsDistinct (cleaned given));
      each =
          subst (All IsSourceId) (sym same) (All-first_occurrences IsSourceId (cleaned given) good);
      few =
          omega (
            arith,
            ap length e,
            leb→le (length (dedupe_non_empty given)) max_import_source_ids few,
          );
      short =
          subst (λ texts. sum_by length texts ≤ max_import_request_bytes) (sym same)
            (omega (arith, short, sum_by-first_occurrences (cleaned given)));
    }

-- The last check of a request never fails: where the ids given are few and each passes, the request
-- is accepted.
pub validate_accepts :
    (given : List Text)
    → length given ≤ max_import_source_ids
    → check_source_ids 0 given ≡ ok tt
    → validate_import_source_ids given ≡ ok (first_occurrences (cleaned given))
unfolding validate_import_source_ids
validate_accepts given few checked =
    let first = le→leb (length given) max_import_source_ids few in
    let last =
      le→leb (length (dedupe_non_empty given)) max_import_source_ids
        (omega (arith, few, length-dedupe_non_empty given)) in
    rw first (rw checked (rw last (ap ok (dedupe_non_empty-eq given))))
