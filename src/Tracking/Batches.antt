-- ===== src/Tracking/Batches.antt =====
-- tracking.rs: the refresh of many rows, `refresh_sheet_rows_with_progress`. Rows are grouped by the
-- id that they are looked up by, and the answers come one by one, in any order, between writes of
-- other connections. The id of the run and of the sheet, the same in all events, and log lines are
-- left out, and so are the check of the document generation and a failure of the database itself to
-- read or update a row.
use ship_flow_tauri.Prelude.{
  ℕ, zero, suc, ◌+◌, ◌-◌, ◌%◌, ◌^◌, min, Text, Bool, true, false, Option, none, some, List, [], ◌∷◌,
  ◌++◌, ◌==◌, text_eq, nat_eq, ◌&&◌, ◌||◌, length, if◌then◌else◌,
}
use ship_flow_tauri.Prelude.Trim.{trim}
use ship_flow_tauri.Prelude.Table.{find_where, any, contains}
use ship_flow_tauri.Storage.Tables.{Store, SheetRow, SheetRowStatus}
use ship_flow_tauri.Storage.Rows.Isolation.{row_has_id}
use ship_flow_tauri.Storage.Rows.Lookups.{update_sheet_row_status_if_lookup_matches}
use ship_flow_tauri.Tracking.Rows.{TrackingEngineError, Answer, status_input}

abbrev pub max_concurrent_tracking_refresh_lookups : ℕ
max_concurrent_tracking_refresh_lookups = 5

pub record TrackingRefreshProgressEvent : Type 0 where
  pub row : SheetRow
  pub total_count : ℕ
  pub success_count : ℕ
  pub failed_count : ℕ
  pub pending_count : ℕ

pub record Target : Type 0 where
  pub row_id : Text
  pub lookup_tracking_id : Text
  pub row_generation : Text

-- The rows by the id that they are looked up by.
abbrev pub Groups : Type 0
Groups = List (Text × List SheetRow)

-- The variables of the batch. `terminal_events` are those of the answer that is being stored.
pub record Batch : Type 0 where
  pub store : Store
  pub rows_by_lookup_id : Groups
  pub next_lookup_to_activate : ℕ
  pub success_count : ℕ
  pub failed_count : ℕ
  pub terminal_row_ids : List Text
  pub rows : List SheetRow
  pub terminal_events : List TrackingRefreshProgressEvent
  pub events : List TrackingRefreshProgressEvent
  pub storage_error : Option TrackingEngineError

-- What happens while the batch waits: an answer, or a write of another connection.
pub data Happening : Type 0 where
  answered : Text → Answer → Happening
  written : (Store → Store) → Happening

abbrev pub grouped : Groups → List SheetRow
grouped [] = []
grouped ((lookup_id, rows) ∷ rest) = rows ++ grouped rest

-- The setup: what a row id adds.
pub record Setup : Type 0 where
  pub store : Store
  pub seen : List Text
  pub rows_by_lookup_id : Groups
  pub target_rows : List Target

unfoldable pub group_row : SheetRow → Groups → Groups
group_row row [] = (row.lookup_tracking_id, row ∷ []) ∷ []
group_row row ((lookup_id, rows) ∷ rest) =
    let later = group_row row rest in
    if lookup_id == row.lookup_tracking_id
    then (lookup_id, rows ++ (row ∷ [])) ∷ rest
    else (lookup_id, rows) ∷ later

abbrev pub with_status : SheetRowStatus → SheetRow → SheetRow
with_status status row = record row { row_status = status; error_message = none }

abbrev pub target_of : SheetRow → Target
target_of row = record {
  row_id = row.row_id;
  lookup_tracking_id = row.lookup_tracking_id;
  row_generation = row.row_generation;
}

unfoldable pub add_row : Setup → SheetRow → Setup
unfolding group_row update_sheet_row_status_if_lookup_matches
add_row setup row =
    let (t, updated) =
      update_sheet_row_status_if_lookup_matches setup.store
        (status_input row SheetRowStatus.pending) row.lookup_tracking_id row.row_generation in
    if updated
    then record setup {
      store = t;
      rows_by_lookup_id =
          group_row (with_status SheetRowStatus.pending row) setup.rows_by_lookup_id;
      target_rows = setup.target_rows ++ (target_of row ∷ []);
    }
    else record setup { store = t }

unfoldable pub add_found : Text → Setup → Option SheetRow → Setup
unfolding add_row
add_found sheet_id setup none = setup
add_found sheet_id setup (some row) = add_row setup row

-- A row that is in the sheet is read by its id alone, the primary key.
unfoldable pub add_row_id : Text → Setup → Text → Setup
unfolding add_found
add_row_id sheet_id setup row_id =
    if row_id == [] || contains row_id setup.seen
    then setup
    else let seen = record setup { seen = row_id ∷ setup.seen } in
      if any (λ (row : SheetRow). row_has_id row_id row && row.sheet_id == sheet_id)
        setup.store.sheet_rows
      then add_found sheet_id seen (find_where (row_has_id row_id) setup.store.sheet_rows)
      else seen

unfoldable pub add_row_ids : Text → Setup → List Text → Setup
unfolding add_row_id
add_row_ids sheet_id setup [] = setup
add_row_ids sheet_id setup (row_id ∷ row_ids) =
    add_row_ids sheet_id (add_row_id sheet_id setup (trim row_id)) row_ids

-- The sum of the lengths, all u32.
unfoldable pub total_of : Groups → ℕ
total_of [] = 0
total_of ((lookup_id, rows) ∷ rest) = (length rows % 2 ^ 32 + total_of rest) % 2 ^ 32

-- An event about a row, with the counts as they are.
abbrev pub progress : ℕ → Batch → SheetRow → TrackingRefreshProgressEvent
progress total_count b row = record {
  row = row;
  total_count = total_count;
  success_count = b.success_count;
  failed_count = b.failed_count;
  pending_count = (total_count - b.success_count) - b.failed_count;
}

abbrev pub emit : ℕ → SheetRow → Batch → Batch
emit total_count row b = record b { events = b.events ++ (progress total_count b row ∷ []) }

abbrev pub count_success : Batch → Batch
count_success b = record b { success_count = (b.success_count + 1) % 2 ^ 32 }

abbrev pub count_failure : Batch → Batch
count_failure b = record b { failed_count = (b.failed_count + 1) % 2 ^ 32 }

abbrev pub push_row : SheetRow → Batch → Batch
push_row row b = record b {
  terminal_row_ids = row.row_id ∷ b.terminal_row_ids;
  rows = b.rows ++ (row ∷ []);
}

abbrev pub hold : ℕ → SheetRow → Batch → Batch
hold total_count row b = record b {
  terminal_events = b.terminal_events ++ (progress total_count b row ∷ []);
}

-- activate_tracking_lookup_group, for a row and for the rows of a group.
unfoldable pub activate_row : ℕ → Batch → SheetRow → Batch × SheetRow
unfolding update_sheet_row_status_if_lookup_matches
activate_row total_count b row =
    let (t, updated) =
      update_sheet_row_status_if_lookup_matches b.store (status_input row SheetRowStatus.loading)
        row.lookup_tracking_id row.row_generation in
    let loading = with_status SheetRowStatus.loading row in
    let c : Batch = record b { store = t } in
    if updated then (emit total_count loading c, loading) else (c, row)

unfoldable pub activate_rows : ℕ → Batch → List SheetRow → Batch × List SheetRow
unfolding activate_row
activate_rows total_count b [] = (b, [])
activate_rows total_count b (row ∷ rows) =
    let (c, active) = activate_row total_count b row in
    let (d, rest) = activate_rows total_count c rows in (d, active ∷ rest)

unfoldable pub activate_at : ℕ → Batch → ℕ → Groups → Batch × Groups
unfolding activate_rows
activate_at total_count b index [] = (b, [])
activate_at total_count b zero ((lookup_id, rows) ∷ rest) =
    let (c, active) = activate_rows total_count b rows in (c, (lookup_id, active) ∷ rest)
activate_at total_count b (suc index) ((lookup_id, rows) ∷ rest) =
    let (c, later) = activate_at total_count b index rest in (c, (lookup_id, rows) ∷ later)

unfoldable pub activate_first : ℕ → Batch → ℕ → Groups → Batch × Groups
unfolding activate_rows
activate_first total_count b zero groups = (b, groups)
activate_first total_count b (suc n) [] = (b, [])
activate_first total_count b (suc n) ((lookup_id, rows) ∷ rest) =
    let (c, active) = activate_rows total_count b rows in
    let (d, later) = activate_first total_count c n rest in (d, (lookup_id, active) ∷ later)

abbrev pub is_pending : SheetRow → Bool
is_pending row = elim row.row_status [ SheetRowStatus.pending ↦ true | _ ↦ false ]

-- The events of the rows that wait for their group's turn. Nothing is counted yet, so all are pending.
unfoldable pub emit_pending : ℕ → Batch → List SheetRow → Batch
emit_pending total_count b [] = b
emit_pending total_count b (row ∷ rows) =
    emit_pending total_count (if is_pending row then emit total_count row b else b) rows

-- The state with which the batch starts to wait.
unfoldable pub start_batch : ℕ → Setup → Batch
unfolding activate_first emit_pending
start_batch total_count setup =
    let groups = setup.rows_by_lookup_id in
    let first = min (length groups) max_concurrent_tracking_refresh_lookups in
    let (b, active) =
      activate_first total_count
        (record {
          store = setup.store;
          rows_by_lookup_id = [];
          next_lookup_to_activate = first;
          success_count = 0;
          failed_count = 0;
          terminal_row_ids = [];
          rows = [];
          terminal_events = [];
          events = [];
          storage_error = none;
        })
        first groups in
    emit_pending total_count (record b { rows_by_lookup_id = active }) (grouped active)
