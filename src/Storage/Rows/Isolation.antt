-- ===== src/Storage/Rows/Isolation.antt =====
-- storage.rs: row ids as a key, and the rows outside one sheet.
use ship_flow_tauri.Prelude.{
  Text, Bool, true, false, some, List, [], ◌∷◌, ◌++◌, ◌≡◌, refl, ap, ◌==◌, text_eq, nat_eq,
  text_beq_iff, not, filter, All, Bool-cases, inl, inr, arith,
}
use ship_flow_tauri.Prelude.Table.{
  find_where-delete_where, find_where, any, update_where, delete_where, find_where-update_where,
  find_where-append, find_where-new,
}
use ship_flow_tauri.Storage.Tables.{SheetRow}

abbrev pub row_has_id : Text → SheetRow → Bool
row_has_id id row = row.row_id == id

-- Every row is the one that a lookup by its id finds: ids are the primary key.
abbrev pub IsKeyed : List SheetRow → Type 0
IsKeyed rows = All (λ (row : SheetRow). find_where (row_has_id row.row_id) rows ≡ some row) rows

abbrev pub is_elsewhere : Text → SheetRow → Bool
is_elsewhere sheet_id row = not (row.sheet_id == sheet_id)

-- What a change of one sheet's rows keeps.
pub record IsIsolated (sheet_id : Text) (before after : List SheetRow) : Type 0 where
  pub keyed : IsKeyed after
  pub elsewhere : filter (is_elsewhere sheet_id) after ≡ filter (is_elsewhere sheet_id) before

pub delete_where-IsKeyed :
    (p : SheetRow → Bool) (rows : List SheetRow) → IsKeyed rows → IsKeyed (delete_where p rows)
unfolding delete_where
delete_where-IsKeyed p rows keyed = part rows keyed
  where
    part :
        (xs : List SheetRow)
        → All (λ (row : SheetRow). find_where (row_has_id row.row_id) rows ≡ some row) xs
        → All
            (λ (row : SheetRow).
              find_where (row_has_id row.row_id) (delete_where p rows) ≡ some row)
            (delete_where p xs)
    part [] a = tt
    part (x ∷ xs) a = elim (Bool-cases (p x)) [
      | inl gone ↦ rw gone (part xs a.1)
      | inr stays ↦
          rw stays (find_where-delete_where p (row_has_id x.row_id) rows x a.0 stays, part xs a.1)
    ]

pub All-delete_where :
    (P : SheetRow → Type 0) (p : SheetRow → Bool) (rows : List SheetRow)
    → All P rows
    → All P (delete_where p rows)
unfolding delete_where
All-delete_where P p [] a = tt
All-delete_where P p (x ∷ xs) a = elim (Bool-cases (p x)) [
  | inl gone ↦ rw gone (All-delete_where P p xs a.1)
  | inr stays ↦ rw stays (a.0, All-delete_where P p xs a.1)
]

pub filter-delete_where :
    (p q : SheetRow → Bool) (rows : List SheetRow)
    → ((row : SheetRow) → p row ≡ true → q row ≡ false)
    → filter q (delete_where p rows) ≡ filter q rows
unfolding filter delete_where
filter-delete_where p q [] h = refl
filter-delete_where p q (x ∷ xs) h = ground (arith, h x, filter-delete_where p q xs h)

-- An update that keeps ids and sheets.
module _ (p : SheetRow → Bool) (f : SheetRow → SheetRow)
    (keeps_id : (row : SheetRow) → (f row).row_id ≡ row.row_id)
    (keeps_sheet : (row : SheetRow) → (f row).sheet_id ≡ row.sheet_id) where
  pub update_where-IsKeyed : (rows : List SheetRow) → IsKeyed rows → IsKeyed (update_where p f rows)
  unfolding update_where
  update_where-IsKeyed rows keyed = part rows keyed
    where
      part :
          (xs : List SheetRow)
          → All (λ (row : SheetRow). find_where (row_has_id row.row_id) rows ≡ some row) xs
          → All
              (λ (row : SheetRow).
                find_where (row_has_id row.row_id) (update_where p f rows) ≡ some row)
              (update_where p f xs)
      part [] a = tt
      part (x ∷ xs) a = (
        ground (
          arith,
          find_where-update_where (row_has_id x.row_id) p f rows x
              (λ y. ap (λ id. id == x.row_id) (keeps_id y)) a.0,
          keeps_id x,
        ),
        part xs a.1,
      )

  pub filter-update_where :
      (sheet_id : Text) (rows : List SheetRow)
      → All (λ (row : SheetRow). p row ≡ true → row.sheet_id ≡ sheet_id) rows
      → filter (is_elsewhere sheet_id) (update_where p f rows) ≡ filter (is_elsewhere sheet_id) rows
  unfolding update_where filter
  filter-update_where sheet_id [] h = refl
  filter-update_where sheet_id (x ∷ xs) h = ground (
    arith,
    h.0,
    keeps_sheet x,
    text_beq_iff x.sheet_id sheet_id,
    filter-update_where sheet_id xs h.1,
  )

pub append-IsKeyed :
    (rows : List SheetRow) (new : SheetRow)
    → any (row_has_id new.row_id) rows ≡ false
    → IsKeyed rows
    → IsKeyed (rows ++ (new ∷ []))
append-IsKeyed rows new fresh keyed = part rows keyed
  where
    part :
        (xs : List SheetRow)
        → All (λ (row : SheetRow). find_where (row_has_id row.row_id) rows ≡ some row) xs
        → All
            (λ (row : SheetRow). find_where (row_has_id row.row_id) (rows ++ (new ∷ [])) ≡ some row)
            (xs ++ (new ∷ []))
    part [] a = (
      find_where-new (row_has_id new.row_id) rows new fresh
          ((text_beq_iff new.row_id new.row_id).1 refl),
      tt,
    )
    part (x ∷ xs) a = (find_where-append (row_has_id x.row_id) rows x new a.0, part xs a.1)

pub filter-append :
    (q : SheetRow → Bool) (rows : List SheetRow) (new : SheetRow)
    → q new ≡ false
    → filter q (rows ++ (new ∷ [])) ≡ filter q rows
unfolding filter
filter-append q [] new h = ground (arith, h)
filter-append q (x ∷ xs) new h = ground (arith, filter-append q xs new h)
