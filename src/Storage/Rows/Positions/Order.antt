-- ===== src/Storage/Rows/Positions/Order.antt =====
-- storage.rs: the rows of a sheet in the order of their positions.
use ship_flow_tauri.Prelude.{
  ℕ, suc, ◌≤◌, Text, Bool, true, false, List, [], ◌∷◌, ◌++◌, ◌≡◌, ◌⊎◌, inl, inr, refl, sym, subst,
  ◌==◌, text_eq, nat_eq, text_beq_iff, ◌&&◌, filter, All, All-filter, length, length-filter,
  Bool-cases, arith,
}
use ship_flow_tauri.Prelude.Table.{
  delete_where, sort_by, insert_by, length-sort_by, All-append, All-map,
}
use ship_flow_tauri.Storage.Tables.{SheetRow}
use ship_flow_tauri.Storage.Rows.Isolation.{All-delete_where}
use ship_flow_tauri.Storage.Rows.Positions.{in_sheet, row_precedes, ordered_rows}

abbrev pub shares_position : SheetRow → SheetRow → Bool
shares_position a b = a.sheet_id == b.sheet_id && a.position == b.position

-- UNIQUE(sheet_id, position)
abbrev pub HasUniquePositions : List SheetRow → Type 0
HasUniquePositions [] = Unit
HasUniquePositions (row ∷ rows) =
    All (λ (other : SheetRow). shares_position row other ≡ false) rows × HasUniquePositions rows

-- Positions grow along the list, from a bound on.
abbrev pub IsIncreasing : ℕ → List SheetRow → Type 0
IsIncreasing k [] = Unit
IsIncreasing k (row ∷ rows) = (k ≤ row.position) × IsIncreasing (suc row.position) rows

abbrev pub IsOneOf : SheetRow → List SheetRow → Type 0
IsOneOf row [] = ⊥
IsOneOf row (x ∷ xs) = (row ≡ x) ⊎ IsOneOf row xs

pub IsIncreasing-le :
    (j k : ℕ) (rows : List SheetRow) → j ≤ k → IsIncreasing k rows → IsIncreasing j rows
IsIncreasing-le j k [] le h = tt
IsIncreasing-le j k (x ∷ xs) le h = (omega (arith, le, h.0), h.1)

pub IsOneOf-position :
    (k : ℕ) (row : SheetRow) (rows : List SheetRow)
    → IsIncreasing k rows
    → IsOneOf row rows
    → k ≤ row.position
IsOneOf-position k row [] h m = absurd m
IsOneOf-position k row (x ∷ xs) h m = elim m [
  | inl e ↦ rw e h.0
  | inr later ↦ omega (arith, h.0, IsOneOf-position (suc x.position) row xs h.1 later)
]

insert-IsIncreasing :
    (k : ℕ) (x : SheetRow) (ys : List SheetRow)
    → k ≤ x.position
    → IsIncreasing k ys
    → All (λ (y : SheetRow). (x.position == y.position) ≡ false) ys
    → IsIncreasing k (insert_by row_precedes x ys)
unfolding insert_by
insert-IsIncreasing k x [] le h apart = (le, tt)
insert-IsIncreasing k x (y ∷ ys) le h apart = elim (Bool-cases (row_precedes x y)) [
  | inl first ↦ rw first (le, (ground (arith, first, apart.0), h.1))
  | inr later ↦
      rw later (
        h.0,
        insert-IsIncreasing (suc y.position) x ys (ground (arith, later, apart.0)) h.1 apart.1,
      )
]

module _ {κ} (P : SheetRow → Type κ) where
  All-insert_by :
      (x : SheetRow) (ys : List SheetRow) → P x → All P ys → All P (insert_by row_precedes x ys)
  unfolding insert_by
  All-insert_by x [] p a = (p, tt)
  All-insert_by x (y ∷ ys) p a = elim (Bool-cases (row_precedes x y)) [
    | inl first ↦ rw first (p, a)
    | inr later ↦ rw later (a.0, All-insert_by x ys p a.1)
  ]

  All-sort_by : (xs : List SheetRow) → All P xs → All P (sort_by row_precedes xs)
  unfolding sort_by
  All-sort_by [] a = tt
  All-sort_by (x ∷ xs) a = All-insert_by x (sort_by row_precedes xs) a.0 (All-sort_by xs a.1)

insert-IsOneOf :
    (row x : SheetRow) (ys : List SheetRow)
    → (row ≡ x) ⊎ IsOneOf row ys
    → IsOneOf row (insert_by row_precedes x ys)
unfolding insert_by
insert-IsOneOf row x [] m = m
insert-IsOneOf row x (y ∷ ys) m = elim (Bool-cases (row_precedes x y)) [
  | inl first ↦ rw first m
  | inr later ↦ rw later (elim m [
    | inl e ↦ inr (insert-IsOneOf row x ys (inl e))
    | inr n ↦ elim n [ inl e ↦ inl e | inr deeper ↦ inr (insert-IsOneOf row x ys (inr deeper)) ]
  ])
]

ordered_rows_inside :
    (sheet_id : Text) (x : SheetRow) (xs : List SheetRow)
    → in_sheet sheet_id x ≡ true
    → ordered_rows sheet_id (x ∷ xs) ≡ insert_by row_precedes x (ordered_rows sheet_id xs)
unfolding filter sort_by
ordered_rows_inside sheet_id x xs inside = rw inside refl

ordered_rows_outside :
    (sheet_id : Text) (x : SheetRow) (xs : List SheetRow)
    → in_sheet sheet_id x ≡ false
    → ordered_rows sheet_id (x ∷ xs) ≡ ordered_rows sheet_id xs
unfolding filter
ordered_rows_outside sheet_id x xs outside = rw outside refl

-- Every row of a sheet is one of its ordered rows.
pub ordered_rows-IsOneOf :
    (sheet_id : Text) (rows : List SheetRow)
    → All
        (λ (row : SheetRow).
          in_sheet sheet_id row ≡ true → IsOneOf row (ordered_rows sheet_id rows))
        rows
ordered_rows-IsOneOf sheet_id [] = tt
ordered_rows-IsOneOf sheet_id (x ∷ xs) =
    let later = ordered_rows-IsOneOf sheet_id xs in
    elim (Bool-cases (in_sheet sheet_id x)) [
      | inl inside ↦
          let e = sym (ordered_rows_inside sheet_id x xs inside) in
          (
            λ _. subst (IsOneOf x) e (insert-IsOneOf x x (ordered_rows sheet_id xs) (inl refl)),
            All-map _ _ xs
                (λ row m is_in.
                  subst (IsOneOf row) e
                    (insert-IsOneOf row x (ordered_rows sheet_id xs) (inr (m is_in))))
                later,
          )
      | inr outside ↦
          let e = sym (ordered_rows_outside sheet_id x xs outside) in
          (
            λ is_in. absurd (ground (arith, outside, is_in)),
            All-map _ _ xs (λ row m is_in. subst (IsOneOf row) e (m is_in)) later,
          )
    ]

-- Where positions are unique, the ordered rows of a sheet stand in increasing positions.
pub ordered_rows-IsIncreasing :
    (sheet_id : Text) (rows : List SheetRow)
    → HasUniquePositions rows
    → IsIncreasing 0 (ordered_rows sheet_id rows)
unfolding filter sort_by
ordered_rows-IsIncreasing sheet_id [] unique = tt
ordered_rows-IsIncreasing sheet_id (x ∷ xs) unique = elim (Bool-cases (in_sheet sheet_id x)) [
  | inl inside ↦ rw inside (
      insert-IsIncreasing 0 x (ordered_rows sheet_id xs) (omega arith)
        (ordered_rows-IsIncreasing sheet_id xs unique.1)
        (All-sort_by _ (filter (in_sheet sheet_id) xs) (
          All-map _ _ (filter (in_sheet sheet_id) xs)
            (λ y h. ground (
              arith,
              h.0,
              h.1,
              inside,
              text_beq_iff x.sheet_id sheet_id,
              text_beq_iff y.sheet_id sheet_id,
              text_beq_iff x.sheet_id y.sheet_id,
            ))
            (All-filter _ (in_sheet sheet_id) xs unique.0))))
  | inr outside ↦ rw outside (ordered_rows-IsIncreasing sheet_id xs unique.1)
]

pub append-HasUniquePositions :
    (rows : List SheetRow) (new : SheetRow)
    → HasUniquePositions rows
    → All (λ (row : SheetRow). shares_position row new ≡ false) rows
    → HasUniquePositions (rows ++ (new ∷ []))
append-HasUniquePositions [] new h apart = (tt, tt)
append-HasUniquePositions (x ∷ xs) new h apart =
    (All-append _ xs (new ∷ []) h.0 (apart.0, tt), append-HasUniquePositions xs new h.1 apart.1)

pub delete_where-HasUniquePositions :
    (p : SheetRow → Bool) (rows : List SheetRow)
    → HasUniquePositions rows
    → HasUniquePositions (delete_where p rows)
unfolding delete_where
delete_where-HasUniquePositions p [] h = tt
delete_where-HasUniquePositions p (x ∷ xs) h = elim (Bool-cases (p x)) [
  | inl gone ↦ rw gone (delete_where-HasUniquePositions p xs h.1)
  | inr stays ↦ rw stays (All-delete_where _ p xs h.0, delete_where-HasUniquePositions p xs h.1)
]

pub length-ordered_rows :
    (sheet_id : Text) (rows : List SheetRow) → length (ordered_rows sheet_id rows) ≤ length rows
length-ordered_rows sheet_id rows = omega (
  arith,
  length-sort_by row_precedes (filter (in_sheet sheet_id) rows),
  length-filter (in_sheet sheet_id) rows,
)
