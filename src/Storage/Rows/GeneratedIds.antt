-- ===== src/Storage/Rows/GeneratedIds.antt =====
-- storage.rs: the search for a row id that no row has. The loop of the source has no bound; here it
-- has fuel for one candidate more than there are rows.
use ship_flow_tauri.Prelude.{
  [], append-nil, append_assoc, ap, ℕ, zero, suc, ◌+◌, ◌≤◌, ◌<◌, min, Text, bytes, true, false,
  Option, none, some, List, ◌∷◌, ◌++◌, ◌≡◌, ◌⊎◌, inl, inr, refl, sym, subst, ◌∙◌, ◌==◌, nat_eq,
  text_eq, text_beq_iff, Bool-cases, if◌then◌else◌, length, u32_max, arith,
}
use ship_flow_tauri.Prelude.Decimal.{
  decimal, decimal-injective, append-cancel, append-ne, decimal-AreDigits, digits-cancel,
  EndsDigits,
}
use ship_flow_tauri.Prelude.Table.{any, delete_where, length-delete_where_hit, any-delete_where}
use ship_flow_tauri.Storage.Tables.{SheetRow}
use ship_flow_tauri.Storage.Rows.Isolation.{row_has_id}

-- {sheet_id}:row:{position}
unfoldable generated_base : Text → ℕ → Text
unfolding decimal
generated_base sheet_id position = sheet_id ++ (bytes ":row:" ++ decimal position)

-- The candidates: the base, and the base with `:{suffix}`.
unfoldable pub generated_row_id : Text → ℕ → ℕ → Text
unfolding generated_base
generated_row_id sheet_id position suffix =
    if suffix == 0
    then generated_base sheet_id position
    else generated_base sheet_id position ++ (b':' ∷ decimal suffix)

unfoldable search_row_id : ℕ → List SheetRow → Text → ℕ → ℕ → Option Text
unfolding generated_row_id
search_row_id zero rows sheet_id position suffix = none
search_row_id (suc fuel) rows sheet_id position suffix =
    let later = search_row_id fuel rows sheet_id position (min (suffix + 1) u32_max) in
    if any (row_has_id (generated_row_id sheet_id position suffix)) rows
    then later
    else some (generated_row_id sheet_id position suffix)

unfoldable pub next_available_generated_sheet_row_id : List SheetRow → Text → ℕ → Option Text
unfolding search_row_id
next_available_generated_sheet_row_id rows sheet_id position =
    search_row_id (suc (length rows)) rows sheet_id position 0

generated_row_id-injective :
    (sheet_id : Text) (position i j : ℕ)
    → generated_row_id sheet_id position i ≡ generated_row_id sheet_id position j
    → i ≡ j
unfolding generated_row_id
generated_row_id-injective sheet_id position i j e = elim (Bool-cases (i == 0)) [
  | inl i0 ↦ elim (Bool-cases (j == 0)) [
    | inl j0 ↦ ground (arith, i0, j0)
    | inr j1 ↦
        absurd
          (append-ne (generated_base sheet_id position) b':' (decimal j) (rw i0 at (rw j1 at e)))
  ]
  | inr i1 ↦ elim (Bool-cases (j == 0)) [
    | inl j0 ↦ absurd (
        append-ne (generated_base sheet_id position) b':' (decimal i) (sym (rw i1 at (rw j0 at e))))
    | inr j1 ↦
        let e' = append-cancel (generated_base sheet_id position) (rw i1 at (rw j1 at e)) in
        decimal-injective i j cc
  ]
]

module _ (sheet_id : Text) (position : ℕ) where
  abbrev IsTaken : List SheetRow → ℕ → Type 0
  IsTaken rows suffix = any (row_has_id (generated_row_id sheet_id position suffix)) rows ≡ true

  other_candidate :
      (i j : ℕ) (x : SheetRow)
      → i < j
      → row_has_id (generated_row_id sheet_id position i) x ≡ true
      → row_has_id (generated_row_id sheet_id position j) x ≡ false
  other_candidate i j x lt same =
      let at_i = (text_beq_iff x.row_id (generated_row_id sheet_id position i)).0 same in
      elim (Bool-cases (row_has_id (generated_row_id sheet_id position j) x)) [
        | inr other ↦ other
        | inl both ↦
            let at_j = (text_beq_iff x.row_id (generated_row_id sheet_id position j)).0 both in
            absurd (
              omega (arith, lt, generated_row_id-injective sheet_id position i j (sym at_i ∙ at_j)))
      ]

  candidates_from :
      (rows : List SheetRow) (suffix fuel : ℕ)
      → IsTaken rows suffix
      → ((i : ℕ) → i < fuel → IsTaken rows (suffix + 1 + i))
      → (i : ℕ) → i < suc fuel
      → IsTaken rows (suffix + i)
  candidates_from rows suffix fuel first later zero lt = subst (IsTaken rows) (omega arith) first
  candidates_from rows suffix fuel first later (suc i) lt =
      subst (IsTaken rows) (omega arith) (later i (omega (arith, lt)))

  -- No more candidates are taken than there are rows.
  taken_bound :
      (n start : ℕ) (rows : List SheetRow)
      → ((i : ℕ) → i < n → IsTaken rows (start + i))
      → n ≤ length rows
  taken_bound zero start rows taken = omega arith
  taken_bound (suc n) start rows taken =
      let candidate = row_has_id (generated_row_id sheet_id position start) in
      let later : n ≤ length (delete_where candidate rows) =
        taken_bound n (suc start) (delete_where candidate rows)
          (λ i lt. still_taken i (taken (suc i) (omega (arith, lt)))) in
      ground (arith, later, length-delete_where_hit candidate rows, taken 0 (omega arith))
    where
      still_taken :
          (i : ℕ)
          → IsTaken rows (start + suc i)
          → IsTaken
              (delete_where (row_has_id (generated_row_id sheet_id position start)) rows)
              (suc start + i)
      still_taken i h =
          any-delete_where (row_has_id (generated_row_id sheet_id position start))
            (row_has_id (generated_row_id sheet_id position (suc start + i))) rows
            (λ x same. other_candidate start (suc start + i) x (omega arith) same)
          ∙ subst (IsTaken rows) (omega arith) h

  search_row_id_total :
      (fuel suffix : ℕ) (rows : List SheetRow)
      → suffix + fuel ≤ u32_max
      → ((id : Text) × (search_row_id fuel rows sheet_id position suffix ≡ some id)
          × (any (row_has_id id) rows ≡ false))
        ⊎ ((i : ℕ) → i < fuel → IsTaken rows (suffix + i))
  unfolding search_row_id
  search_row_id_total zero suffix rows fits = inr (λ i lt. absurd (omega (arith, lt)))
  search_row_id_total (suc fuel) suffix rows fits =
      let next : min (suffix + 1) u32_max ≡ suffix + 1 = omega (arith, fits) in
      let candidate = generated_row_id sheet_id position suffix in
      elim (Bool-cases (any (row_has_id candidate) rows)) [
        | inr free ↦ inl (candidate, rw free refl, free)
        | inl taken ↦ rw taken (
            rw next (elim (search_row_id_total fuel (suffix + 1) rows (omega (arith, fits))) [
              | inl found ↦ inl found
              | inr all ↦ inr (candidates_from rows suffix fuel taken all)
            ]))
      ]

-- The search for a row id ends, with an id that no row has, where there are fewer rows than
-- suffixes.
pub next_available_total :
    (rows : List SheetRow) (sheet_id : Text) (position : ℕ)
    → length rows < u32_max
    → (id : Text) × (next_available_generated_sheet_row_id rows sheet_id position ≡ some id)
      × (any (row_has_id id) rows ≡ false)
unfolding next_available_generated_sheet_row_id
next_available_total rows sheet_id position fits =
    elim (search_row_id_total sheet_id position (suc (length rows)) 0 rows (omega (arith, fits))) [
      | inl found ↦ found
      | inr all ↦
          absurd (ground (arith, taken_bound sheet_id position (suc (length rows)) 0 rows all))
    ]

suffix_text : ℕ → Text
unfolding decimal
suffix_text suffix = if suffix == 0 then [] else b':' ∷ decimal suffix

generated_row_id-eq :
    (sheet_id : Text) (position suffix : ℕ)
    → generated_row_id sheet_id position suffix
      ≡ sheet_id ++ (bytes ":row:" ++ (decimal position ++ suffix_text suffix))
unfolding generated_row_id generated_base suffix_text
generated_row_id-eq sheet_id position suffix = elim (Bool-cases (suffix == 0)) [
  | inl plain ↦
      rw plain
        (ap (λ digits. sheet_id ++ (bytes ":row:" ++ digits)) (sym (append-nil (decimal position))))
  | inr more ↦
      rw more (append_assoc sheet_id (bytes ":row:" ++ decimal position) (b':' ∷ decimal suffix))
]

suffix_text-EndsDigits : (suffix : ℕ) → EndsDigits (suffix_text suffix)
unfolding suffix_text
suffix_text-EndsDigits suffix = elim (Bool-cases (suffix == 0)) [
  | inl plain ↦ rw plain tt
  | inr more ↦ rw more (λ digit. omega (arith, digit.1))
]

-- Candidates for different positions are different.
pub generated_row_id-position :
    (sheet_id : Text) (p q i j : ℕ)
    → generated_row_id sheet_id p i ≡ generated_row_id sheet_id q j
    → p ≡ q
generated_row_id-position sheet_id p q i j e =
    let whole = sym (generated_row_id-eq sheet_id p i) ∙ e ∙ generated_row_id-eq sheet_id q j in
    let rest = append-cancel (bytes ":row:") (append-cancel sheet_id whole) in
    decimal-injective p q (
      digits-cancel (decimal p) (decimal q) (suffix_text i) (suffix_text j) (decimal-AreDigits p)
        (decimal-AreDigits q) (suffix_text-EndsDigits i) (suffix_text-EndsDigits j) rest)

search_row_id-suffix :
    (fuel suffix : ℕ) (rows : List SheetRow) (sheet_id : Text) (position : ℕ) (id : Text)
    → search_row_id fuel rows sheet_id position suffix ≡ some id
    → (i : ℕ) × (id ≡ generated_row_id sheet_id position i)
unfolding search_row_id
search_row_id-suffix zero suffix rows sheet_id position id h = absurd (ground (arith, h))
search_row_id-suffix (suc fuel) suffix rows sheet_id position id h =
    elim (Bool-cases (any (row_has_id (generated_row_id sheet_id position suffix)) rows)) [
      | inl taken ↦
          search_row_id-suffix fuel (min (suffix + 1) u32_max) rows sheet_id position id
            (rw taken at h)
      | inr free ↦ (suffix, let found = rw free at h in ground (arith, found))
    ]

-- The id that is found is one of the candidates for the position.
pub next_available-suffix :
    (rows : List SheetRow) (sheet_id : Text) (position : ℕ) (id : Text)
    → next_available_generated_sheet_row_id rows sheet_id position ≡ some id
    → (i : ℕ) × (id ≡ generated_row_id sheet_id position i)
unfolding next_available_generated_sheet_row_id
next_available-suffix rows sheet_id position id h =
    search_row_id-suffix (suc (length rows)) 0 rows sheet_id position id h
