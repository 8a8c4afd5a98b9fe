-- ===== src/Tracking/Answers.antt =====
-- tracking.rs: `refresh_sheet_rows_with_progress` from its first answer on: the callback that stores
-- an answer, and what fails the rows that got none.
pub mod Ended
pub mod Returned
pub mod Counts
pub mod Progress
pub mod Steps
pub mod Happenings
pub mod Failures
pub mod Totals
use ship_flow_tauri.Prelude.{
  ℕ, suc, ◌+◌, Text, bytes, Bool, true, false, Option, none, some, List, [], ◌∷◌, ◌++◌, ◌==◌,
  text_eq, not, ◌&&◌, ltb, length, if◌then◌else◌,
}
use ship_flow_tauri.Prelude.Table.{find_where, contains}
use ship_flow_tauri.Prelude.Outcome.{Outcome, ok, err}
use ship_flow_tauri.Storage.Tables.{Store, SheetRow}
use ship_flow_tauri.Storage.Rows.Isolation.{row_has_id}
use ship_flow_tauri.Storage.Rows.Positions.{list_sheet_row_ids}
use ship_flow_tauri.Storage.Rows.Lookups.{is_interrupted}
use ship_flow_tauri.Tracking.Rows.{
  TrackingLookupFailure, TrackingEngineError, TrackingEngineResult, Answer, BlobWriter,
  store_successful_tracking_response, store_failed_tracking_lookup, failed_tracking_projection,
}
use ship_flow_tauri.Tracking.Batches.{
  TrackingRefreshProgressEvent, Target, Groups, Batch, Happening, Setup, grouped, add_row_ids,
  total_of, emit, hold, count_success, count_failure, push_row, activate_at, start_batch,
}

pub record SheetRowsTrackingRefreshResult : Type 0 where
  pub success_count : ℕ
  pub failed_count : ℕ
  pub rows : List SheetRow

abbrev pub put_back :
    Text → List SheetRow → Option (List SheetRow × Groups) → Option (List SheetRow × Groups)
put_back candidate rows none = none
put_back candidate rows (some (taken, others)) = some (taken, (candidate, rows) ∷ others)

-- The rows of a group, which are taken out of it.
unfoldable pub take_group : Text → Groups → Option (List SheetRow × Groups)
take_group lookup_id [] = none
take_group lookup_id ((candidate, rows) ∷ rest) =
    let later = take_group lookup_id rest in
    if candidate == lookup_id
    then some (rows, (candidate, []) ∷ rest)
    else put_back candidate rows later

-- What a stored answer does to the counts and the rows of the batch.
unfoldable pub settle_stored :
    ℕ → (Batch → Batch) → Batch → TrackingEngineResult (Option SheetRow) → Batch
settle_stored total_count counted b (err problem) = record b { storage_error = some problem }
settle_stored total_count counted b (ok none) = b
settle_stored total_count counted b (ok (some row)) =
    push_row row (hold total_count row (counted b))

unfoldable pub settle_row : BlobWriter → ℕ → Batch → SheetRow → Answer → Batch
unfolding settle_stored
settle_row write total_count b row (ok response) =
    let (stored, t) = store_successful_tracking_response write b.store row response in
    settle_stored total_count count_success (record b { store = t }) stored
settle_row write total_count b row (err failure) =
    let (stored, t) = store_failed_tracking_lookup b.store row failure in
    settle_stored total_count count_failure (record b { store = t }) stored

-- The loop over the rows of an answer's group, which an error of the store ends.
unfoldable pub settle_group : BlobWriter → ℕ → Batch → List SheetRow → Answer → Batch
unfolding settle_row
settle_group write total_count b [] answer = b
settle_group write total_count b (row ∷ rows) answer =
    let next = settle_row write total_count b row answer in
    elim next.storage_error [
      | some problem ↦ next
      | none ↦ settle_group write total_count next rows answer
    ]

abbrev pub activated : Batch × Groups → Batch
activated (c, groups) = record c {
  rows_by_lookup_id = groups;
  next_lookup_to_activate = suc c.next_lookup_to_activate;
}

unfoldable pub activate_next : ℕ → Batch → Batch
unfolding activate_at
activate_next total_count b =
    if ltb b.next_lookup_to_activate (length b.rows_by_lookup_id)
    then activated (activate_at total_count b b.next_lookup_to_activate b.rows_by_lookup_id)
    else b

abbrev pub flush : Batch → Batch
flush b = record b { events = b.events ++ b.terminal_events; terminal_events = [] }

abbrev pub with_groups : Groups → Batch → Batch
with_groups groups b = record b { rows_by_lookup_id = groups; terminal_events = [] }

abbrev pub after_group : ℕ → Batch → Batch
after_group total_count c = elim c.storage_error [
  | some problem ↦ c
  | none ↦ activate_next total_count (flush c)
]

unfoldable pub settle_taken :
    BlobWriter → ℕ → Batch → Answer → Option (List SheetRow × Groups) → Batch
unfolding settle_group activate_next
settle_taken write total_count b answer none = b
settle_taken write total_count b answer (some (rows, groups)) =
    after_group total_count (settle_group write total_count (with_groups groups b) rows answer)

-- The callback.
unfoldable pub on_result : BlobWriter → ℕ → Batch → Text → Answer → Batch
unfolding settle_taken take_group
on_result write total_count b lookup_id answer = elim b.storage_error [
  | some problem ↦ b
  | none ↦ settle_taken write total_count b answer (take_group lookup_id b.rows_by_lookup_id)
]

unfoldable pub happen : BlobWriter → ℕ → Batch → Happening → Batch
unfolding on_result
happen write total_count b (Happening.answered lookup_id answer) =
    on_result write total_count b lookup_id answer
happen write total_count b (Happening.written change) = record b { store = change b.store }

unfoldable pub happen_all : BlobWriter → ℕ → Batch → List Happening → Batch
unfolding happen
happen_all write total_count b [] = b
happen_all write total_count b (happening ∷ rest) =
    happen_all write total_count (happen write total_count b happening) rest

-- `if storage_error.is_none() { storage_error = Some(error) }`
abbrev pub keep_error : Option TrackingEngineError → TrackingEngineError → TrackingEngineError
keep_error none problem = problem
keep_error (some first) problem = first

unfoldable pub fail_stored :
    ℕ → TrackingLookupFailure → SheetRow → Batch → TrackingEngineResult (Option SheetRow) → Batch
unfolding failed_tracking_projection
fail_stored total_count failure row b (err problem) =
    let failed = failed_tracking_projection row failure in
    let c : Batch = record b { storage_error = some (keep_error b.storage_error problem) } in
    push_row failed (emit total_count failed (count_failure c))
fail_stored total_count failure row b (ok none) = b
fail_stored total_count failure row b (ok (some failed)) =
    push_row failed (emit total_count failed (count_failure b))

unfoldable pub fail_row : ℕ → TrackingLookupFailure → Batch → SheetRow → Batch
unfolding fail_stored
fail_row total_count failure b row =
    let (stored, t) = store_failed_tracking_lookup b.store row failure in
    fail_stored total_count failure row (record b { store = t }) stored

-- The rows that are left in groups.
unfoldable pub fail_rows : ℕ → TrackingLookupFailure → Batch → List SheetRow → Batch
unfolding fail_row
fail_rows total_count failure b [] = b
fail_rows total_count failure b (row ∷ rows) =
    fail_rows total_count failure
      (if contains row.row_id b.terminal_row_ids then b else fail_row total_count failure b row)
      rows

abbrev pub is_unchanged : Target → SheetRow → Bool
is_unchanged target row =
    row.lookup_tracking_id == target.lookup_tracking_id
    && row.row_generation == target.row_generation

unfoldable pub fail_found : ℕ → TrackingLookupFailure → Batch → Target → Option SheetRow → Batch
unfolding fail_row
fail_found total_count failure b target none = b
fail_found total_count failure b target (some current) =
    if is_unchanged target current && is_interrupted current
    then fail_row total_count failure b current
    else b

-- The targets that are still in progress: a group that an error of the store ended, or a late answer.
unfoldable pub fail_target : ℕ → TrackingLookupFailure → Batch → Target → Batch
unfolding fail_found
fail_target total_count failure b target =
    if contains target.row_id b.terminal_row_ids
    then b
    else fail_found total_count failure b target
        (find_where (row_has_id target.row_id) b.store.sheet_rows)

unfoldable pub fail_targets : ℕ → TrackingLookupFailure → Batch → List Target → Batch
unfolding fail_target
fail_targets total_count failure b [] = b
fail_targets total_count failure b (target ∷ targets) =
    fail_targets total_count failure (fail_target total_count failure b target) targets

-- Why a row got no answer. `display` is the text of an error.
unfoldable pub missing_result_error :
    (TrackingEngineError → Text)
    → Option TrackingEngineError
    → Option TrackingLookupFailure
    → TrackingLookupFailure
missing_result_error display (some problem) batch_error = record { message = display problem }
missing_result_error display none (some failure) = failure
missing_result_error display none none = record {
  message = bytes "tracking batch did not return a result";
}

-- The rest of the batch, when the service is done.
unfoldable pub finish_batch : ℕ → TrackingLookupFailure → List Target → Batch → Batch
unfolding fail_rows fail_targets
finish_batch total_count failure targets b =
    fail_targets total_count failure
      (fail_rows total_count failure (record b { rows_by_lookup_id = [] })
        (grouped b.rows_by_lookup_id))
      targets

-- An empty list of rows stands for all rows of the sheet.
abbrev requested : Store → Text → List Text → List Text
requested s sheet_id [] = list_sheet_row_ids s sheet_id
requested s sheet_id (row_id ∷ row_ids) = row_id ∷ row_ids

abbrev pub setup_of : Store → Text → List Text → Setup
setup_of s sheet_id row_ids =
    add_row_ids sheet_id (record { store = s; seen = []; rows_by_lookup_id = []; target_rows = [] })
      (requested s sheet_id row_ids)

-- All of the batch: `happenings` up to the end of the service's call, which may fail.
unfoldable pub run_batch :
    BlobWriter
    → (TrackingEngineError → Text)
    → Setup
    → List Happening
    → Option TrackingLookupFailure
    → Batch
unfolding total_of start_batch happen_all missing_result_error finish_batch
run_batch write display setup happenings batch_error =
    let total_count = total_of setup.rows_by_lookup_id in
    let b = happen_all write total_count (start_batch total_count setup) happenings in
    finish_batch total_count (missing_result_error display b.storage_error batch_error)
      setup.target_rows b

abbrev pub batch_result : Batch → TrackingEngineResult SheetRowsTrackingRefreshResult
batch_result b = elim b.storage_error [
  | some problem ↦ err problem
  | none ↦
      ok (record { success_count = b.success_count; failed_count = b.failed_count; rows = b.rows })
]

unfoldable pub refresh_sheet_rows_with_progress :
    BlobWriter
    → (TrackingEngineError → Text)
    → Store
    → Text
    → List Text
    → List Happening
    → Option TrackingLookupFailure
    → TrackingEngineResult SheetRowsTrackingRefreshResult × Batch
unfolding run_batch add_row_ids
refresh_sheet_rows_with_progress write display s sheet_id row_ids happenings batch_error =
    let b = run_batch write display (setup_of s sheet_id row_ids) happenings batch_error in
    (batch_result b, b)
