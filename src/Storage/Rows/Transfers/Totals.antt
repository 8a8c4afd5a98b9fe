-- ===== src/Storage/Rows/Transfers/Totals.antt =====
-- storage.rs: what a whole transfer does.
use ship_flow_tauri.Prelude.{
  some, map, ltb, count, sum_by, is_some, not, ◌&&◌, ◌||◌, append-nil, ◌<◌, ◌+◌, ◌≤◌, ◌^◌, Text,
  Bool, true, false, List, [], ◌∷◌, ◌++◌, ◌≡◌, refl, sym, ap, ◌∙◌, ◌==◌, text_eq, filter, All,
  arith, length, u32_max,
}
use ship_flow_tauri.Prelude.Table.{contains, any, find_where, All-map}
use ship_flow_tauri.Storage.Tables.{Store, SheetRow, ok}
use ship_flow_tauri.Storage.Rows.Isolation.{row_has_id, IsKeyed, is_elsewhere}
use ship_flow_tauri.Storage.Rows.Positions.{
  in_sheet, is_row, max_position_plus_one, next_sheet_row_position, delete_ids,
}
use ship_flow_tauri.Storage.Rows.Positions.Order.{HasUniquePositions}
use ship_flow_tauri.Storage.Rows.Positions.Compacted.{
  delete_ids-IsShortened, any-delete_ids, compact_total,
}
use ship_flow_tauri.Storage.Rows.Transfers.{
  Transfer, TransferSheetRowsInput, is_empty_list, settle_rows, transfer_rows, transfer_sheet_rows,
}
use ship_flow_tauri.Storage.Rows.Transfers.Named.{AreCopies, is_named, one_if}
use ship_flow_tauri.Storage.Rows.Transfers.Copies.{
  find_source, IsConsecutive, IsCopying, transfer_rows_total,
}

pub below_next :
    (sheet_id : Text) (rows : List SheetRow)
    → All
        (λ (row : SheetRow).
          in_sheet sheet_id row ≡ true → row.position < max_position_plus_one sheet_id rows)
        rows
unfolding max_position_plus_one
below_next sheet_id [] = tt
below_next sheet_id (x ∷ xs) = (
  λ inside. ground (arith, inside),
  All-map _ _ xs (λ row low inside. ground (arith, low inside)) (below_next sheet_id xs),
)

-- A copy of rows, or a move: the rows after it, with `new` the copies of `sources`, which are the rows
-- of the source sheet that the input names, each once.
pub record IsTransferred (s : Store) (input : TransferSheetRowsInput) (t : Store) : Type 0 where
  pub sources : List SheetRow
  pub new : List SheetRow
  pub each :
      All
        (λ (row : SheetRow).
          find_where (is_row input.source_sheet_id row.row_id) s.sheet_rows ≡ some row)
        sources
  pub chosen :
      (id : Text)
      → count (row_has_id id) sources
        ≡ one_if (
            is_named id input.row_ids
            && is_some (find_where (is_row input.source_sheet_id id) s.sheet_rows))
  pub copies : AreCopies input.target_sheet_id sources new
  pub consecutive : IsConsecutive (max_position_plus_one input.target_sheet_id s.sheet_rows) new
  pub keyed : IsKeyed t.sheet_rows
  pub elsewhere :
      filter (is_elsewhere input.source_sheet_id) t.sheet_rows
      ≡ filter (is_elsewhere input.source_sheet_id) (s.sheet_rows ++ new)
  pub kept : input.delete_source_rows ≡ false → t.sheet_rows ≡ s.sheet_rows ++ new
  pub moved :
      (id : Text)
      → any (is_row input.source_sheet_id id) t.sheet_rows ≡ (
          any (is_row input.source_sheet_id id) s.sheet_rows
          && not (input.delete_source_rows && is_named id input.row_ids))

settle_total :
    (source : Text) (delete_source_rows : Bool) (st : Transfer)
    → length st.rows ≤ 2 ^ 32
    → HasUniquePositions st.rows
    → IsKeyed st.rows
    → (rows : List SheetRow) × (settle_rows source delete_source_rows st ≡ ok rows)
      × IsKeyed rows
      × (filter (is_elsewhere source) rows ≡ filter (is_elsewhere source) st.rows)
      × (delete_source_rows ≡ false → rows ≡ st.rows)
      × ((id : Text)
          → any (is_row source id) rows ≡ (
              any (is_row source id) st.rows
              && not (delete_source_rows && contains id st.copied_source_row_ids)))
unfolding settle_rows
settle_total source false st fits unique keyed =
    (st.rows, refl, keyed, refl, λ _. refl, λ id. ground arith)
settle_total source true st fits unique keyed =
    let ids = st.copied_source_row_ids in
    let kept = delete_ids source ids st.rows in
    let shortened = delete_ids-IsShortened source ids st.rows in
    let (rows, run, done) =
      compact_total source kept (omega (arith, fits, shortened.shorter))
        (shortened.unique unique) in
    (
      rows,
      run,
      done.keyed (shortened.keyed keyed),
      done.elsewhere ∙ shortened.elsewhere,
      λ e. absurd (ground (arith, e)),
      λ id. done.same_ids id ∙ any-delete_ids source id ids st.rows ∙ ground arith,
    )

any-found : (p : SheetRow → Bool) (rows : List SheetRow) → any p rows ≡ is_some (find_where p rows)
unfolding any find_where
any-found p [] = refl
any-found p (x ∷ xs) = ground (arith, any-found p xs)

contains-row_ids :
    (id : Text) (rows : List SheetRow)
    → contains id (map (λ (row : SheetRow). row.row_id) rows) ≡ ltb 0 (count (row_has_id id) rows)
unfolding contains sum_by
contains-row_ids id [] = refl
contains-row_ids id (x ∷ xs) = ground (arith, contains-row_ids id xs)

abbrev first_turn : Store → TransferSheetRowsInput → Transfer
first_turn s input = record {
  rows = s.sheet_rows;
  next_position = next_sheet_row_position s input.target_sheet_id;
  copied_source_row_ids = [];
  seen_source_row_ids = [];
}

transfer_runs :
    (s : Store) (input : TransferSheetRowsInput) (st : Transfer) (rows : List SheetRow)
    → is_empty_list input.row_ids ≡ false
    → (input.source_sheet_id == input.target_sheet_id) ≡ false
    → transfer_rows s.sheet_ids input.source_sheet_id input.target_sheet_id input.row_ids
        (first_turn s input)
      ≡ ok st
    → settle_rows input.source_sheet_id input.delete_source_rows st ≡ ok rows
    → transfer_sheet_rows s input ≡ ok (record s { sheet_rows = rows })
unfolding transfer_sheet_rows
transfer_runs s input st rows given apart loop settled =
    rw given (rw apart (rw loop (rw settled refl)))

first_turn-IsCopying :
    (s : Store) (input : TransferSheetRowsInput)
    → max_position_plus_one input.target_sheet_id s.sheet_rows ≤ u32_max
    → HasUniquePositions s.sheet_rows
    → IsKeyed s.sheet_rows
    → IsCopying input.source_sheet_id input.target_sheet_id s.sheet_rows
        (max_position_plus_one input.target_sheet_id s.sheet_rows)
        (first_turn s input)
unfolding next_sheet_row_position sum_by contains
first_turn-IsCopying s input fits unique keyed = record {
  sources = [];
  new = [];
  added = sym (append-nil s.sheet_rows);
  copies = tt;
  each = tt;
  ids = refl;
  chosen = λ id. refl;
  consecutive = tt;
  next = omega (arith, fits);
  keyed = keyed;
  unique = unique;
  below =
      All-map _ _ s.sheet_rows (λ row low inside. omega (arith, fits, low inside))
        (below_next input.target_sheet_id s.sheet_rows);
}

chosen_named :
    (s : Store) (input : TransferSheetRowsInput) (st : Transfer)
    (copying : IsCopying input.source_sheet_id input.target_sheet_id s.sheet_rows
      (max_position_plus_one input.target_sheet_id s.sheet_rows)
      st)
    → ((id : Text)
        → contains id st.seen_source_row_ids ≡ (contains id [] || is_named id input.row_ids))
    → (id : Text)
    → count (row_has_id id) copying.sources
      ≡ one_if (
          is_named id input.row_ids
          && is_some (find_where (is_row input.source_sheet_id id) s.sheet_rows))
unfolding contains
chosen_named s input st copying sees id =
    copying.chosen id
    ∙ ap (λ b. one_if (b && is_some (find_where (is_row input.source_sheet_id id) s.sheet_rows)))
        (sees id)

left_rows :
    (s : Store) (input : TransferSheetRowsInput) (st : Transfer)
    (copying : IsCopying input.source_sheet_id input.target_sheet_id s.sheet_rows
      (max_position_plus_one input.target_sheet_id s.sheet_rows)
      st)
    → (input.source_sheet_id == input.target_sheet_id) ≡ false
    → (id : Text)
    → count (row_has_id id) copying.sources
      ≡ one_if (
          is_named id input.row_ids
          && is_some (find_where (is_row input.source_sheet_id id) s.sheet_rows))
    → (any (is_row input.source_sheet_id id) st.rows
        && not (input.delete_source_rows && contains id st.copied_source_row_ids))
      ≡ (any (is_row input.source_sheet_id id) s.sheet_rows
          && not (input.delete_source_rows && is_named id input.row_ids))
left_rows s input st copying apart id chosen =
    let source = input.source_sheet_id in
    let known =
      any-found (is_row source id) st.rows
      ∙ ap is_some (
          find_source source input.target_sheet_id s.sheet_rows id
            (max_position_plus_one input.target_sheet_id s.sheet_rows) st apart copying) in
    let copied = ap (contains id) copying.ids ∙ contains-row_ids id copying.sources in
    ground (arith, known, any-found (is_row source id) s.sheet_rows, copied, chosen)

-- A transfer to another sheet that exists succeeds, where positions and row ids are unique and
-- there is room for the rows and their positions. It copies each row of the source that is named by
-- one of the given ids, trimmed, once and no other, to the positions after the target's last one;
-- row ids stay unique, and all rows but those of the source are as they were. The rows of the source
-- stay too where the transfer does not delete them; where it does, those left have the ids that were
-- not named.
pub transfer_sheet_rows_total :
    (s : Store) (input : TransferSheetRowsInput)
    → is_empty_list input.row_ids ≡ false
    → (input.source_sheet_id == input.target_sheet_id) ≡ false
    → contains input.target_sheet_id s.sheet_ids ≡ true
    → length s.sheet_rows + length input.row_ids ≤ u32_max
    → max_position_plus_one input.target_sheet_id s.sheet_rows + length input.row_ids ≤ u32_max
    → HasUniquePositions s.sheet_rows
    → IsKeyed s.sheet_rows
    → (t : Store) × (transfer_sheet_rows s input ≡ ok t) × IsTransferred s input t
unfolding next_sheet_row_position
transfer_sheet_rows_total s input given apart has room fits unique keyed =
    let first = first_turn-IsCopying s input (omega (arith, fits)) unique keyed in
    let (st, loop, copying, sees, bound) =
      transfer_rows_total input.source_sheet_id input.target_sheet_id s.sheet_rows s.sheet_ids
        input.row_ids (max_position_plus_one input.target_sheet_id s.sheet_rows)
        (first_turn s input) has apart room (omega (arith, fits)) first in
    let (rows, settled, rows_keyed, elsewhere, kept, left) =
      settle_total input.source_sheet_id input.delete_source_rows st (omega (arith, bound, room))
        copying.unique copying.keyed in
    let chosen = chosen_named s input st copying sees in
    (
      record s { sheet_rows = rows },
      transfer_runs s input st rows given apart loop settled,
      record {
        sources = copying.sources;
        new = copying.new;
        each = copying.each;
        chosen = chosen;
        copies = copying.copies;
        consecutive = copying.consecutive;
        keyed = rows_keyed;
        elsewhere = elsewhere ∙ ap (filter (is_elsewhere input.source_sheet_id)) copying.added;
        kept = λ e. kept e ∙ copying.added;
        moved = λ id. left id ∙ left_rows s input st copying apart id (chosen id);
      },
    )
