-- ===== src/Tracking/Answers/Progress.antt =====
-- tracking.rs: the counts of a batch through all its steps.
use ship_flow_tauri.Prelude.{
  ℕ, ◌^◌, ◌<◌, Text, Option, none, some, List, [], ◌∷◌, ◌++◌, refl, text_eq,
}
use ship_flow_tauri.Prelude.Outcome.{ok, err}
use ship_flow_tauri.Storage.Tables.{Store, SheetRow}
use ship_flow_tauri.Tracking.Rows.{
  TrackingEngineError, TrackingEngineResult, Answer, BlobWriter, store_failed_tracking_lookup,
  store_successful_tracking_response,
}
use ship_flow_tauri.Tracking.Batches.{Target, Groups, Batch, count_success, count_failure}
use ship_flow_tauri.Tracking.Answers.{settle_stored, settle_row, settle_group}
use ship_flow_tauri.Tracking.Answers.Counts.{
  IsCounted, IsWaiting, settle_success-IsCounted, settle_failure-IsCounted, IsWaiting-first,
  IsWaiting-skip, IsWaiting-push,
}
use ship_flow_tauri.Tracking.Answers.Returned.{
  IsReturned, store_failed-IsReturned, store_successful-IsReturned,
}

module _ (total_count : ℕ) (targets : List Target) where
  -- A batch whose counts are right, and the rows that wait.
  abbrev pub IsSound : Batch → List SheetRow → Type 0
  IsSound b rows = IsCounted total_count targets b × IsWaiting targets b.terminal_row_ids rows

  -- The counts do not depend on the store, the groups and the error.
  pub moved-IsCounted :
      (b : Batch) (s : Store) (groups : Groups) (next : ℕ) (problem : Option TrackingEngineError)
      → IsCounted total_count targets b
      → IsCounted total_count targets (record b {
        store = s;
        rows_by_lookup_id = groups;
        next_lookup_to_activate = next;
        storage_error = problem;
      })
  moved-IsCounted b s groups next problem h = record {
    bounded = h.bounded;
    counted = h.counted;
    balanced = h.balanced;
    balanced_held = h.balanced_held;
    ended = h.ended;
  }

  skip_all :
      (terminal : List Text) (rows rest : List SheetRow)
      → IsWaiting targets terminal (rows ++ rest)
      → IsWaiting targets terminal rest
  skip_all terminal [] rest h = h
  skip_all terminal (row ∷ rows) rest h =
      skip_all terminal rows rest (IsWaiting-skip targets terminal row (rows ++ rest) h)

  module _ (small : total_count < 2 ^ 32) where
    settle_stored_success :
        (b : Batch) (row : SheetRow) (rest : List SheetRow)
        (stored : TrackingEngineResult (Option SheetRow))
        → IsReturned row stored
        → IsSound b (row ∷ rest)
        → IsSound (settle_stored total_count count_success b stored) rest
    unfolding settle_stored
    settle_stored_success b row rest (err problem) given h = (
      moved-IsCounted b b.store b.rows_by_lookup_id b.next_lookup_to_activate (some problem) h.0,
      IsWaiting-skip targets b.terminal_row_ids row rest h.1,
    )
    settle_stored_success b row rest (ok none) given h =
        (h.0, IsWaiting-skip targets b.terminal_row_ids row rest h.1)
    settle_stored_success b row rest (ok (some new)) given h =
        let (same, ends) = given new refl in
        let (fresh, asked) = IsWaiting-first targets b.terminal_row_ids row rest h.1 in
        (
          settle_success-IsCounted total_count targets small new b h.0 (rw same fresh)
              (rw same asked) ends,
          rw same (IsWaiting-push targets b.terminal_row_ids row rest h.1),
        )

    settle_stored_failure :
        (b : Batch) (row : SheetRow) (rest : List SheetRow)
        (stored : TrackingEngineResult (Option SheetRow))
        → IsReturned row stored
        → IsSound b (row ∷ rest)
        → IsSound (settle_stored total_count count_failure b stored) rest
    unfolding settle_stored
    settle_stored_failure b row rest (err problem) given h = (
      moved-IsCounted b b.store b.rows_by_lookup_id b.next_lookup_to_activate (some problem) h.0,
      IsWaiting-skip targets b.terminal_row_ids row rest h.1,
    )
    settle_stored_failure b row rest (ok none) given h =
        (h.0, IsWaiting-skip targets b.terminal_row_ids row rest h.1)
    settle_stored_failure b row rest (ok (some new)) given h =
        let (same, ends) = given new refl in
        let (fresh, asked) = IsWaiting-first targets b.terminal_row_ids row rest h.1 in
        (
          settle_failure-IsCounted total_count targets small new b h.0 (rw same fresh)
              (rw same asked) ends,
          rw same (IsWaiting-push targets b.terminal_row_ids row rest h.1),
        )

    with_store :
        (b : Batch) (s : Store) (rows : List SheetRow)
        → IsSound b rows
        → IsSound (record b { store = s }) rows
    with_store b s rows h =
        (moved-IsCounted b s b.rows_by_lookup_id b.next_lookup_to_activate b.storage_error h.0, h.1)

    settle_row-IsSound :
        (write : BlobWriter) (b : Batch) (row : SheetRow) (rest : List SheetRow) (answer : Answer)
        → IsSound b (row ∷ rest)
        → IsSound (settle_row write total_count b row answer) rest
    unfolding settle_row
    settle_row-IsSound write b row rest (ok response) h =
        let t = (store_successful_tracking_response write b.store row response).1 in
        settle_stored_success (record b { store = t }) row rest _
          (store_successful-IsReturned write b.store row response) (with_store b t (row ∷ rest) h)
    settle_row-IsSound write b row rest (err failure) h =
        let t = (store_failed_tracking_lookup b.store row failure).1 in
        settle_stored_failure (record b { store = t }) row rest _
          (store_failed-IsReturned b.store row failure) (with_store b t (row ∷ rest) h)

    pub settle_group-IsSound :
        (write : BlobWriter) (b : Batch) (rows rest : List SheetRow) (answer : Answer)
        → IsSound b (rows ++ rest)
        → IsSound (settle_group write total_count b rows answer) rest
    unfolding settle_group
    settle_group-IsSound write b [] rest answer h = h
    settle_group-IsSound write b (row ∷ rows) rest answer h =
        let next = settle_row write total_count b row answer in
        let sound = settle_row-IsSound write b row (rows ++ rest) answer h in
        by_error next.storage_error (sound.0, skip_all next.terminal_row_ids rows rest sound.1)
          (settle_group-IsSound write next rows rest answer sound)
      where
        by_error :
            {c d : Batch} (problem : Option TrackingEngineError)
            → IsSound c rest
            → IsSound d rest
            → IsSound (elim problem [ some e ↦ c | none ↦ d ]) rest
        by_error (some e) stop go = stop
        by_error none stop go = go
