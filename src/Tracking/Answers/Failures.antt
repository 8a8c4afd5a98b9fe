-- ===== src/Tracking/Answers/Failures.antt =====
-- tracking.rs: the counts of a batch when the rows without an answer fail.
use ship_flow_tauri.Prelude.{
  ℕ, ◌^◌, ◌≤◌, ◌<◌, Text, Bool, true, false, Option, none, some, List, [], ◌∷◌, ◌≡◌, refl, ◌&&◌,
  text_eq, text_beq_iff, All, if◌then◌else◌, arith, sum_by,
}
use ship_flow_tauri.Prelude.Table.{contains, find_where, find_where-holds}
use ship_flow_tauri.Prelude.Outcome.{ok, err}
use ship_flow_tauri.Storage.Tables.{SheetRow}
use ship_flow_tauri.Storage.Rows.Isolation.{row_has_id}
use ship_flow_tauri.Storage.Rows.Lookups.{is_interrupted}
use ship_flow_tauri.Tracking.Rows.{
  TrackingLookupFailure, TrackingEngineResult, store_failed_tracking_lookup,
  failed_tracking_projection,
}
use ship_flow_tauri.Tracking.Batches.{Target, Batch, grouped}
use ship_flow_tauri.Tracking.Answers.{
  keep_error, fail_stored, fail_row, fail_rows, fail_found, fail_target, fail_targets, is_unchanged,
  finish_batch,
}
use ship_flow_tauri.Tracking.Answers.Counts.{
  IsCounted, IsWaiting, requested_times, IsWaiting-first, IsWaiting-skip, fail-IsCounted,
}
use ship_flow_tauri.Tracking.Answers.Returned.{IsReturned, store_failed-IsReturned}
use ship_flow_tauri.Tracking.Answers.Progress.{moved-IsCounted}

abbrev IsRequested : List Target → Text → Type 0
IsRequested targets id = 1 ≤ requested_times id targets

waiting-IsRequested :
    (targets : List Target) (terminal : List Text) (rows : List SheetRow)
    → IsWaiting targets terminal rows
    → All (λ (row : SheetRow). IsRequested targets row.row_id) rows
waiting-IsRequested targets terminal [] h = tt
waiting-IsRequested targets terminal (row ∷ rows) h = (
  (IsWaiting-first targets terminal row rows h).1,
  waiting-IsRequested targets terminal rows (IsWaiting-skip targets terminal row rows h),
)

IsRequested-more :
    (target : Target) (targets : List Target) (id : Text)
    → IsRequested targets id
    → IsRequested (target ∷ targets) id
unfolding sum_by
IsRequested-more target targets id h = omega (arith, h)

all-IsRequested_more :
    (target : Target) (targets some_targets : List Target)
    → All (λ (t : Target). IsRequested targets t.row_id) some_targets
    → All (λ (t : Target). IsRequested (target ∷ targets) t.row_id) some_targets
all-IsRequested_more target targets [] h = tt
all-IsRequested_more target targets (t ∷ rest) h =
    (IsRequested-more target targets t.row_id h.0, all-IsRequested_more target targets rest h.1)

all-IsRequested :
    (targets : List Target) → All (λ (t : Target). IsRequested targets t.row_id) targets
unfolding sum_by
all-IsRequested [] = tt
all-IsRequested (target ∷ targets) =
    let e = (text_beq_iff target.row_id target.row_id).1 refl in
    (ground (arith, e), all-IsRequested_more target targets targets (all-IsRequested targets))

module _ (total_count : ℕ) (targets : List Target) (small : total_count < 2 ^ 32)
    (failure : TrackingLookupFailure) where
  abbrev IsRight : Batch → Type 0
  IsRight b = IsCounted total_count targets b

  fail_stored-IsCounted :
      (row : SheetRow) (b : Batch) (stored : TrackingEngineResult (Option SheetRow))
      → IsReturned row stored
      → contains row.row_id b.terminal_row_ids ≡ false
      → IsRequested targets row.row_id
      → IsRight b
      → IsRight (fail_stored total_count failure row b stored)
  unfolding fail_stored failed_tracking_projection
  fail_stored-IsCounted row b (err problem) given fresh asked h =
      let e = some (keep_error b.storage_error problem) in
      fail-IsCounted total_count targets small (failed_tracking_projection row failure)
        (record b { storage_error = e })
        (moved-IsCounted total_count targets b b.store b.rows_by_lookup_id b.next_lookup_to_activate
          e h)
        fresh asked refl
  fail_stored-IsCounted row b (ok none) given fresh asked h = h
  fail_stored-IsCounted row b (ok (some failed)) given fresh asked h =
      let (same, ends) = given failed refl in
      fail-IsCounted total_count targets small failed b h (rw same fresh) (rw same asked) ends

  fail_row-IsCounted :
      (b : Batch) (row : SheetRow)
      → contains row.row_id b.terminal_row_ids ≡ false
      → IsRequested targets row.row_id
      → IsRight b
      → IsRight (fail_row total_count failure b row)
  unfolding fail_row
  fail_row-IsCounted b row fresh asked h =
      let (stored, t) = store_failed_tracking_lookup b.store row failure in
      fail_stored-IsCounted row (record b { store = t }) stored
        (store_failed-IsReturned b.store row failure) fresh asked
        (moved-IsCounted total_count targets b t b.rows_by_lookup_id b.next_lookup_to_activate
          b.storage_error h)

  -- A step that is taken where a test fails.
  by_test :
      (b d : Batch) (c : Bool) → IsRight b → (c ≡ false → IsRight d) → IsRight (if c then b else d)
  by_test b d true h go = h
  by_test b d false h go = go refl

  fail_rows-IsCounted :
      (b : Batch) (rows : List SheetRow)
      → All (λ (row : SheetRow). IsRequested targets row.row_id) rows
      → IsRight b
      → IsRight (fail_rows total_count failure b rows)
  unfolding fail_rows
  fail_rows-IsCounted b [] asked h = h
  fail_rows-IsCounted b (row ∷ rows) asked h =
      fail_rows-IsCounted
        (if contains row.row_id b.terminal_row_ids then b else fail_row total_count failure b row)
        rows asked.1
        (by_test b (fail_row total_count failure b row) (contains row.row_id b.terminal_row_ids) h
          (λ fresh. fail_row-IsCounted b row fresh asked.0 h))

  fail_found-IsCounted :
      (b : Batch) (target : Target) (o : Option SheetRow)
      → find_where (row_has_id target.row_id) b.store.sheet_rows ≡ o
      → contains target.row_id b.terminal_row_ids ≡ false
      → IsRequested targets target.row_id
      → IsRight b
      → IsRight (fail_found total_count failure b target o)
  unfolding fail_found
  fail_found-IsCounted b target none found fresh asked h = h
  fail_found-IsCounted b target (some current) found fresh asked h =
      let named =
        (text_beq_iff current.row_id target.row_id).0
          (find_where-holds (row_has_id target.row_id) b.store.sheet_rows current found) in
      if_right (is_unchanged target current && is_interrupted current)
        (fail_row-IsCounted b current (rw named fresh) (rw named asked) h)
    where
      if_right : {d : Batch} (c : Bool) → IsRight d → IsRight (if c then d else b)
      if_right true go = go
      if_right false go = h

  fail_targets-IsCounted :
      (b : Batch) (rest : List Target)
      → All (λ (t : Target). IsRequested targets t.row_id) rest
      → IsRight b
      → IsRight (fail_targets total_count failure b rest)
  unfolding fail_targets fail_target
  fail_targets-IsCounted b [] asked h = h
  fail_targets-IsCounted b (target ∷ rest) asked h =
      fail_targets-IsCounted (fail_target total_count failure b target) rest asked.1 (
        by_test b _ (contains target.row_id b.terminal_row_ids) h
          (λ fresh. fail_found-IsCounted b target _ refl fresh asked.0 h))

  pub finish_batch-IsCounted :
      (b : Batch)
      → IsRight b
      → IsWaiting targets b.terminal_row_ids (grouped b.rows_by_lookup_id)
      → IsRight (finish_batch total_count failure targets b)
  unfolding finish_batch
  finish_batch-IsCounted b h waiting =
      let rows = grouped b.rows_by_lookup_id in
      let c : Batch = record b { rows_by_lookup_id = [] } in
      fail_targets-IsCounted (fail_rows total_count failure c rows) targets
        (all-IsRequested targets)
        (fail_rows-IsCounted c rows (waiting-IsRequested targets b.terminal_row_ids rows waiting) (
          moved-IsCounted total_count targets b b.store [] b.next_lookup_to_activate b.storage_error
            h))
