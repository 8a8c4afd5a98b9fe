-- ===== src/Storage/Rows/Positions/Compacted.antt =====
-- storage.rs: deletions, and the positions of the rows that stay.
use ship_flow_tauri.Prelude.{
  ℕ, suc, ◌+◌, ◌^◌, ◌%◌, ◌<◌, ◌≤◌, Text, true, false, some, List, [], ◌∷◌, map, ◌≡◌, ◌⊎◌, inl, inr,
  refl, ap, ◌∙◌, text_eq, nat_eq, text_beq_iff, filter, All, Bool-cases, arith, length, get_elem?,
  Bool, not, ◌&&◌, ◌==◌,
}
use ship_flow_tauri.Prelude.Table.{
  any, any_none, update_where, delete_where, All-map, All-update_where_cases, All-always,
  length-delete_where, contains,
}
use ship_flow_tauri.Storage.Tables.{Store, SheetRow, ok}
use ship_flow_tauri.Storage.Rows.Isolation.{
  IsKeyed, is_elsewhere, IsIsolated, update_where-IsKeyed, filter-update_where,
  delete_where-IsKeyed, filter-delete_where,
}
use ship_flow_tauri.Storage.Rows.Positions.{
  in_sheet, is_row, is_taken_by, with_position, set_position, renumber, ordered_rows,
  compact_sheet_row_positions, delete_ids, delete_sheet_rows, list_sheet_row_ids,
}
use ship_flow_tauri.Storage.Rows.Positions.Order.{
  IsIncreasing, IsIncreasing-le, IsOneOf, IsOneOf-position, ordered_rows-IsOneOf,
  ordered_rows-IsIncreasing, HasUniquePositions, length-ordered_rows,
  delete_where-HasUniquePositions,
}

abbrev row_ids : List SheetRow → List Text
row_ids rows = map (λ (row : SheetRow). row.row_id) rows

-- A row of the sheet stands at its place in a list of ids.
abbrev pub IsPlaced : Text → List Text → SheetRow → Type 0
IsPlaced sheet_id ids row =
    in_sheet sheet_id row ≡ true → get_elem? ids row.position ≡ some row.row_id

any-update_where :
    (q p : SheetRow → Bool) (f : SheetRow → SheetRow) (rows : List SheetRow)
    → ((x : SheetRow) → q (f x) ≡ q x)
    → any q (update_where p f rows) ≡ any q rows
unfolding any update_where
any-update_where q p f [] keeps = refl
any-update_where q p f (x ∷ xs) keeps = ground (arith, keeps x, any-update_where q p f xs keeps)

module _ (sheet_id : Text) (ids : List Text) where
  -- The row was numbered, or is among those to come.
  abbrev IsKnown : ℕ → List SheetRow → SheetRow → Type 0
  IsKnown k later row =
      in_sheet sheet_id row ≡ true
      → ((row.position < k) × (get_elem? ids row.position ≡ some row.row_id)) ⊎ IsOneOf row later

  -- The loop is at `k`, with the rows `later` to come, in the order of their old positions.
  record Numbering (k : ℕ) (later rows : List SheetRow) : Type 0 where
    increasing : IsIncreasing k later
    known : All (IsKnown k later) rows
    rest : (j : ℕ) → get_elem? ids (k + j) ≡ get_elem? (row_ids later) j

  not_taken :
      (k : ℕ) (row : SheetRow) (later : List SheetRow) (x : SheetRow)
      → IsIncreasing k (row ∷ later)
      → IsKnown k (row ∷ later) x
      → is_taken_by sheet_id row.row_id k x ≡ false
  not_taken k row later x increasing known = elim (Bool-cases (in_sheet sheet_id x)) [
    | inr outside ↦ ground (arith, outside)
    | inl inside ↦ elim (known inside) [
      | inl (before, _) ↦ ground (arith, before)
      | inr m ↦ elim m [
        | inl e ↦ rw e (ground (arith, text_beq_iff row.row_id row.row_id))
        | inr deeper ↦
            ground
              (arith, IsOneOf-position (suc row.position) x later increasing.1 deeper, increasing.0)
      ]
    ]
  ]

  next_turn :
      (k : ℕ) (row : SheetRow) (later rows : List SheetRow)
      → Numbering k (row ∷ later) rows
      → All
          (IsKnown (suc k) later)
          (update_where (is_row sheet_id row.row_id) (with_position k) rows)
  next_turn k row later rows n =
      All-update_where_cases (IsKnown k (row ∷ later)) (IsKnown (suc k) later)
        (is_row sheet_id row.row_id) (with_position k) rows
        (λ x known same _.
          inl (omega arith, ground (arith, n.rest 0, same, text_beq_iff x.row_id row.row_id)))
        (λ x known other inside. elim (known inside) [
          | inl done ↦ inl (omega (arith, done.0), done.1)
          | inr m ↦ elim m [
            | inl e ↦ absurd (ground (arith, other, inside, e, text_beq_iff row.row_id row.row_id))
            | inr deeper ↦ inr deeper
          ]
        ])
        n.known

  numbered :
      (k : ℕ) (row : SheetRow) (later rows : List SheetRow)
      → Numbering k (row ∷ later) rows
      → Numbering (suc k) later (update_where (is_row sheet_id row.row_id) (with_position k) rows)
  numbered k row later rows n = record {
    increasing =
        IsIncreasing-le (suc k) (suc row.position) later (omega (arith, n.increasing.0))
          n.increasing.1;
    known = next_turn k row later rows n;
    rest = λ j. ground (arith, n.rest (suc j));
  }

  set_position_free :
      (k : ℕ) (row : SheetRow) (later rows : List SheetRow)
      → k < 2 ^ 32
      → Numbering k (row ∷ later) rows
      → set_position sheet_id row.row_id (k % 2 ^ 32) rows
        ≡ ok (update_where (is_row sheet_id row.row_id) (with_position k) rows)
  unfolding set_position
  set_position_free k row later rows fits n =
      let same : k % 2 ^ 32 ≡ k = omega (arith, fits) in
      let free : any (is_taken_by sheet_id row.row_id k) rows ≡ false =
        any_none (is_taken_by sheet_id row.row_id k) rows
          (All-map _ _ rows (λ x known. not_taken k row later x n.increasing known) n.known) in
      rw same (ground (arith, free))

  -- What the loop leaves.
  pub record IsNumbered (before after : List SheetRow) : Type 0 where
    pub placed : All (IsPlaced sheet_id ids) after
    pub keyed : IsKeyed before → IsKeyed after
    pub elsewhere : filter (is_elsewhere sheet_id) after ≡ filter (is_elsewhere sheet_id) before
    pub same_ids : (id : Text) → any (is_row sheet_id id) after ≡ any (is_row sheet_id id) before

  renumber_total :
      (k : ℕ) (later rows : List SheetRow)
      → k + length later ≤ 2 ^ 32
      → Numbering k later rows
      → (after : List SheetRow) × (renumber sheet_id (row_ids later) k rows ≡ ok after)
        × IsNumbered rows after
  unfolding renumber
  renumber_total k [] rows fits n = (
    rows,
    refl,
    record {
      placed =
          All-map _ _ rows
            (λ x known inside. elim (known inside) [ inl done ↦ done.1 | inr m ↦ absurd m ])
            n.known;
      keyed = λ h. h;
      elsewhere = refl;
      same_ids = λ id. refl;
    },
  )
  renumber_total k (row ∷ later) rows fits n =
      let updated = update_where (is_row sheet_id row.row_id) (with_position k) rows in
      let first = set_position_free k row later rows (omega (arith, fits)) n in
      let (after, run, done) =
        renumber_total (suc k) later updated (omega (arith, fits)) (numbered k row later rows n) in
      (
        after,
        rw first run,
        record {
          placed = done.placed;
          keyed = λ h. done.keyed (
              update_where-IsKeyed (is_row sheet_id row.row_id) (with_position k) (λ x. refl)
                (λ x. refl) rows h);
          elsewhere =
              done.elsewhere
              ∙ filter-update_where (is_row sheet_id row.row_id) (with_position k) (λ x. refl)
                  (λ x. refl) sheet_id rows
                  (All-always _ rows
                    (λ x same. ground (arith, same, text_beq_iff x.sheet_id sheet_id)));
          same_ids = λ id.
              done.same_ids id
              ∙ any-update_where (is_row sheet_id id) (is_row sheet_id row.row_id) (with_position k)
                  rows (λ x. refl);
        },
      )

pub compact_total :
    (sheet_id : Text) (rows : List SheetRow)
    → length rows ≤ 2 ^ 32
    → HasUniquePositions rows
    → (after : List SheetRow) × (compact_sheet_row_positions sheet_id rows ≡ ok after)
      × IsNumbered sheet_id (row_ids (ordered_rows sheet_id rows)) rows after
unfolding compact_sheet_row_positions
compact_total sheet_id rows fits unique =
    let later = ordered_rows sheet_id rows in
    renumber_total sheet_id (row_ids later) 0 later rows
      (omega (arith, fits, length-ordered_rows sheet_id rows))
      (record {
        increasing = ordered_rows-IsIncreasing sheet_id rows unique;
        known =
            All-map _ _ rows (λ x m inside. inr (m inside)) (ordered_rows-IsOneOf sheet_id rows);
        rest = λ j. ap (get_elem? (row_ids later)) (omega arith);
      })

any-deleted :
    (sheet_id id other : Text) (rows : List SheetRow)
    → any (is_row sheet_id id) (delete_where (is_row sheet_id other) rows)
      ≡ (any (is_row sheet_id id) rows && not (other == id))
unfolding any delete_where
any-deleted sheet_id id other [] = refl
any-deleted sheet_id id other (x ∷ xs) = ground (
  arith,
  any-deleted sheet_id id other xs,
  text_beq_iff x.row_id id,
  text_beq_iff x.row_id other,
  text_beq_iff other id,
)

-- The ids that are left of a sheet.
pub any-delete_ids :
    (sheet_id id : Text) (ids : List Text) (rows : List SheetRow)
    → any (is_row sheet_id id) (delete_ids sheet_id ids rows)
      ≡ (any (is_row sheet_id id) rows && not (contains id ids))
unfolding delete_ids contains
any-delete_ids sheet_id id [] rows = ground arith
any-delete_ids sheet_id id (other ∷ ids) rows =
    any-delete_ids sheet_id id ids (delete_where (is_row sheet_id other) rows)
    ∙ ground (arith, any-deleted sheet_id id other rows)

-- What deletions keep.
pub record IsShortened (sheet_id : Text) (before after : List SheetRow) : Type 0 where
  pub keyed : IsKeyed before → IsKeyed after
  pub unique : HasUniquePositions before → HasUniquePositions after
  pub shorter : length after ≤ length before
  pub elsewhere : filter (is_elsewhere sheet_id) after ≡ filter (is_elsewhere sheet_id) before

pub delete_ids-IsShortened :
    (sheet_id : Text) (ids : List Text) (rows : List SheetRow)
    → IsShortened sheet_id rows (delete_ids sheet_id ids rows)
unfolding delete_ids
delete_ids-IsShortened sheet_id [] rows = record {
  keyed = λ h. h;
  unique = λ h. h;
  shorter = omega arith;
  elsewhere = refl;
}
delete_ids-IsShortened sheet_id (id ∷ ids) rows =
    let kept = delete_where (is_row sheet_id id) rows in
    let later = delete_ids-IsShortened sheet_id ids kept in
    record {
      keyed = λ h. later.keyed (delete_where-IsKeyed (is_row sheet_id id) rows h);
      unique = λ h. later.unique (delete_where-HasUniquePositions (is_row sheet_id id) rows h);
      shorter = omega (arith, later.shorter, length-delete_where (is_row sheet_id id) rows);
      elsewhere =
          later.elsewhere
          ∙ filter-delete_where (is_row sheet_id id) (is_elsewhere sheet_id) rows
              (λ row e. ground (arith, e));
    }

-- A deletion of rows of a sheet succeeds where no two rows share a position: no step of the
-- renumbering meets another row at its new position. Then every row of the sheet that stays stands
-- at its place in the list of the ids that stay, in their old order, row ids stay unique, and the
-- rows of every other sheet are as they were.
pub delete_sheet_rows_total :
    (s : Store) (sheet_id row_id : Text) (row_ids : List Text)
    → length s.sheet_rows ≤ 2 ^ 32
    → HasUniquePositions s.sheet_rows
    → IsKeyed s.sheet_rows
    → (t : Store) × (delete_sheet_rows s sheet_id (row_id ∷ row_ids) ≡ ok t)
      × All
          (IsPlaced sheet_id (
            list_sheet_row_ids
              (record s { sheet_rows = delete_ids sheet_id (row_id ∷ row_ids) s.sheet_rows })
              sheet_id))
          t.sheet_rows
      × IsIsolated sheet_id s.sheet_rows t.sheet_rows
unfolding delete_sheet_rows list_sheet_row_ids
delete_sheet_rows_total s sheet_id row_id row_ids fits unique keyed =
    let kept = delete_ids sheet_id (row_id ∷ row_ids) s.sheet_rows in
    let shortened = delete_ids-IsShortened sheet_id (row_id ∷ row_ids) s.sheet_rows in
    let (after, run, done) =
      compact_total sheet_id kept (omega (arith, fits, shortened.shorter))
        (shortened.unique unique) in
    (
      record s { sheet_rows = after },
      rw run refl,
      done.placed,
      record {
        keyed = done.keyed (shortened.keyed keyed);
        elsewhere = done.elsewhere ∙ shortened.elsewhere;
      },
    )
