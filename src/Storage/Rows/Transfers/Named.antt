-- ===== src/Storage/Rows/Transfers/Named.antt =====
-- storage.rs: the rows that a transfer names, and their copies.
use ship_flow_tauri.Prelude.{
  Bool, map, not, count, sum_by, if◌then◌else◌, ℕ, ◌+◌, ◌<◌, Text, true, false, some, List, [], ◌∷◌,
  ◌++◌, ◌≡◌, sym, ap, ◌∙◌, ◌==◌, text_eq, nat_eq, ◌&&◌, ◌||◌, All, arith, u32_max,
}
use ship_flow_tauri.Prelude.Trim.{trim}
use ship_flow_tauri.Prelude.Table.{any, contains}
use ship_flow_tauri.Storage.Tables.{SheetRow, ok}
use ship_flow_tauri.Storage.Rows.Isolation.{row_has_id}
use ship_flow_tauri.Storage.Rows.GeneratedIds.{next_available_generated_sheet_row_id}
use ship_flow_tauri.Storage.Rows.Positions.{in_sheet}
use ship_flow_tauri.Storage.Rows.Transfers.{Transfer, copied_row, insert_row, copy_row}

-- Whether one of the given ids, trimmed and not blank, is this one.
abbrev pub is_named : Text → List (Text × Text) → Bool
is_named id [] = false
is_named id ((given, generation) ∷ rest) =
    (not (trim given == []) && trim given == id) || is_named id rest

abbrev pub one_if : Bool → ℕ
one_if b = if b then 1 else 0

pub count-append :
    (p : SheetRow → Bool) (rows : List SheetRow) (row : SheetRow)
    → count p (rows ++ (row ∷ [])) ≡ count p rows + one_if (p row)
unfolding sum_by
count-append p [] row = omega arith
count-append p (x ∷ xs) row = ground (arith, count-append p xs row)

-- Each new row is the copy of the source row at its place, under another id, position and generation.
abbrev pub AreCopies : Text → List SheetRow → List SheetRow → Type 0
AreCopies target [] [] = Unit
AreCopies target (row ∷ rows) (new ∷ news) =
    (new ≡ copied_row row new.row_id target new.position new.row_generation)
    × AreCopies target rows news
AreCopies target _ _ = ⊥

pub append-AreCopies :
    (target : Text) (rows news : List SheetRow) (row new : SheetRow)
    → AreCopies target rows news
    → new ≡ copied_row row new.row_id target new.position new.row_generation
    → AreCopies target (rows ++ (row ∷ [])) (news ++ (new ∷ []))
append-AreCopies target [] [] row new h e = (e, tt)
append-AreCopies target (x ∷ xs) (y ∷ ys) row new h e =
    (h.0, append-AreCopies target xs ys row new h.1 e)
append-AreCopies target [] (y ∷ ys) row new h e = absurd h
append-AreCopies target (x ∷ xs) [] row new h e = absurd h

pub AreCopies-target :
    (target : Text) (rows news : List SheetRow)
    → AreCopies target rows news
    → All (λ (new : SheetRow). new.sheet_id ≡ target) news
AreCopies-target target [] [] h = tt
AreCopies-target target (x ∷ xs) (y ∷ ys) h =
    (ap (λ (row : SheetRow). row.sheet_id) h.0, AreCopies-target target xs ys h.1)
AreCopies-target target [] (y ∷ ys) h = absurd h
AreCopies-target target (x ∷ xs) [] h = absurd h

pub row_ids-append :
    (rows : List SheetRow) (row : SheetRow) (ids : List Text) (id : Text)
    → ids ≡ map (λ (x : SheetRow). x.row_id) rows
    → row.row_id ≡ id
    → ids ++ (id ∷ []) ≡ map (λ (x : SheetRow). x.row_id) (rows ++ (row ∷ []))
row_ids-append rows row ids id h e = ap (λ xs. xs ++ (id ∷ [])) h ∙ go rows
  where
    go :
        (xs : List SheetRow)
        → map (λ (x : SheetRow). x.row_id) xs ++ (id ∷ [])
          ≡ map (λ (x : SheetRow). x.row_id) (xs ++ (row ∷ []))
    go [] = ap (λ i. i ∷ []) (sym e)
    go (x ∷ xs) = ap (λ rest. x.row_id ∷ rest) (go xs)

pub seen_first :
    (id x : Text) (seen : List Text)
    → (id == []) ≡ false
    → contains x (id ∷ seen) ≡ (contains x seen || (not (id == []) && id == x))
unfolding contains
seen_first id x seen filled = ground (arith, filled)

pub copied_turn :
    (target : Text) (sheet_ids : List Text) (source_row_id generation : Text) (row : SheetRow)
    (id : Text) (st : Transfer)
    → contains target sheet_ids ≡ true
    → next_available_generated_sheet_row_id st.rows target st.next_position ≡ some id
    → any (row_has_id id) st.rows ≡ false
    → any
        (λ (other : SheetRow). in_sheet target other && other.position == st.next_position)
        st.rows
      ≡ false
    → st.next_position < u32_max
    → copy_row sheet_ids target source_row_id generation row
        (record st { seen_source_row_ids = source_row_id ∷ st.seen_source_row_ids })
      ≡ ok (record st {
        rows = st.rows ++ (copied_row row id target st.next_position generation ∷ []);
        copied_source_row_ids = st.copied_source_row_ids ++ (source_row_id ∷ []);
        seen_source_row_ids = source_row_id ∷ st.seen_source_row_ids;
        next_position = st.next_position + 1;
      })
unfolding copy_row insert_row
copied_turn target sheet_ids source_row_id generation row id st has searched fresh free fits =
    ground (arith, searched, fresh, free, has, fits)
