-- ===== src/Tracking/Answers/Totals.antt =====
-- tracking.rs: the rows that a batch sets out to refresh, and the counts of the whole batch.
use ship_flow_tauri.Prelude.{
  ℕ, ◌+◌, ◌^◌, ◌≤◌, ◌<◌, Text, Bool, true, false, Option, none, some, List, [], ◌∷◌, ◌++◌, ◌≡◌,
  refl, subst, ◌∙◌, inl, inr, ◌==◌, ◌&&◌, ◌||◌, text_eq, nat_eq, text_beq_iff, All, sum_by,
  sum_by-append, length-sum_by, length-append, weight_of, length, Bool-cases, if◌then◌else◌, arith,
  min,
}
use ship_flow_tauri.Prelude.Trim.{trim}
use ship_flow_tauri.Prelude.Table.{any, contains, find_where, find_where-holds}
use ship_flow_tauri.Storage.Tables.{Store, SheetRow, SheetRowStatus}
use ship_flow_tauri.Storage.Rows.Isolation.{row_has_id}
use ship_flow_tauri.Storage.Rows.Lookups.{is_expected, update_sheet_row_status_if_lookup_matches}
use ship_flow_tauri.Tracking.Rows.{
  TrackingLookupFailure, TrackingEngineError, BlobWriter, status_input,
}
use ship_flow_tauri.Tracking.Batches.{
  Target, Groups, Batch, Happening, Setup, grouped, group_row, add_row, add_found, add_row_id,
  add_row_ids, total_of, target_of, with_status, activate_first, start_batch,
  max_concurrent_tracking_refresh_lookups,
}
use ship_flow_tauri.Tracking.Answers.{
  finish_batch, happen_all, missing_result_error, run_batch, setup_of,
}
use ship_flow_tauri.Tracking.Answers.Counts.{
  IsBalanced, IsCounted, IsEnded, IsWaiting, times, once, requested_times, target_has_id,
  unreturned,
}
use ship_flow_tauri.Tracking.Answers.Steps.{
  activate_first-IsActivated, emit_pending-IsCounted, emit_pending_keeps, same_rows-IsWaiting,
}
use ship_flow_tauri.Tracking.Answers.Progress.{moved-IsCounted}
use ship_flow_tauri.Tracking.Answers.Happenings.{IsInProgress, happen_all-IsInProgress}
use ship_flow_tauri.Tracking.Answers.Failures.{finish_batch-IsCounted}

-- Each target once, and its row in a group.
record IsPrepared (setup : Setup) : Type 0 where
  in_groups :
      (id : Text)
      → times id (grouped setup.rows_by_lookup_id) ≡ requested_times id setup.target_rows
  distinct : (id : Text) → requested_times id setup.target_rows ≤ once (contains id setup.seen)
  size : length (grouped setup.rows_by_lookup_id) ≡ length setup.target_rows

group_row_sum :
    (w : SheetRow → ℕ) (row : SheetRow) (groups : Groups)
    → sum_by w (grouped (group_row row groups)) ≡ w row + sum_by w (grouped groups)
unfolding group_row sum_by
group_row_sum w row [] = refl
group_row_sum w row ((lookup_id, rows) ∷ rest) =
    elim (Bool-cases (lookup_id == row.lookup_tracking_id)) [
      | inl hit ↦ rw hit (
          omega (
            arith,
            sum_by-append w (rows ++ (row ∷ [])) (grouped rest),
            sum_by-append w rows (row ∷ []),
            sum_by-append w rows (grouped rest),
          ))
      | inr miss ↦ rw miss (
          omega (
            arith,
            group_row_sum w row rest,
            sum_by-append w rows (grouped (group_row row rest)),
            sum_by-append w rows (grouped rest),
          ))
    ]

nothing : (id : Text) → times id [] ≡ requested_times id []
unfolding sum_by
nothing id = refl

nothing_wanted : (id : Text) → requested_times id [] ≤ once (contains id [])
unfolding sum_by contains
nothing_wanted id = omega arith

-- The setup, with a row id more seen and a row more to refresh.
added-IsPrepared :
    (setup : Setup) (row : SheetRow) (t : Store)
    → IsPrepared setup
    → contains row.row_id setup.seen ≡ false
    → IsPrepared (record {
      store = t;
      seen = row.row_id ∷ setup.seen;
      rows_by_lookup_id =
          group_row (with_status SheetRowStatus.pending row) setup.rows_by_lookup_id;
      target_rows = setup.target_rows ++ (target_of row ∷ []);
    })
unfolding contains sum_by
added-IsPrepared setup row t h fresh =
    let pending = with_status SheetRowStatus.pending row in
    record {
      in_groups = λ id. omega (
        arith,
        h.in_groups id,
        group_row_sum (weight_of (row_has_id id)) pending setup.rows_by_lookup_id,
        sum_by-append (weight_of (target_has_id id)) setup.target_rows (target_of row ∷ []),
      );
      distinct = λ id.
          let apart : (row.row_id == id) ≡ true → contains id setup.seen ≡ false = λ same.
            subst (λ x. contains x setup.seen ≡ false) ((text_beq_iff row.row_id id).0 same)
              fresh in
          ground (
            arith,
            apart,
            h.distinct id,
            sum_by-append (weight_of (target_has_id id)) setup.target_rows (target_of row ∷ []),
          );
      size = omega (
        arith,
        h.size,
        group_row_sum (λ _. 1) pending setup.rows_by_lookup_id,
        length-sum_by (grouped setup.rows_by_lookup_id),
        length-sum_by (grouped (group_row pending setup.rows_by_lookup_id)),
        length-append setup.target_rows (target_of row ∷ []),
      );
    }

seen-IsPrepared :
    (setup : Setup) (row_id : Text) (t : Store)
    → IsPrepared setup
    → IsPrepared (record setup { store = t; seen = row_id ∷ setup.seen })
unfolding contains
seen-IsPrepared setup row_id t h = record {
  in_groups = h.in_groups;
  distinct = λ id. ground (arith, h.distinct id);
  size = h.size;
}

add_found-IsPrepared :
    (sheet_id row_id : Text) (setup : Setup) (o : Option SheetRow)
    → find_where (row_has_id row_id) setup.store.sheet_rows ≡ o
    → IsPrepared setup
    → contains row_id setup.seen ≡ false
    → IsPrepared (add_found sheet_id (record setup { seen = row_id ∷ setup.seen }) o)
unfolding add_found add_row update_sheet_row_status_if_lookup_matches
add_found-IsPrepared sheet_id row_id setup none found h fresh =
    seen-IsPrepared setup row_id setup.store h
add_found-IsPrepared sheet_id row_id setup (some row) found h fresh =
    let named =
      (text_beq_iff row.row_id row_id).0
        (find_where-holds (row_has_id row_id) setup.store.sheet_rows row found) in
    let expected = is_expected row.row_id row.lookup_tracking_id row.row_generation in
    let t =
      (update_sheet_row_status_if_lookup_matches setup.store
        (status_input row SheetRowStatus.pending) row.lookup_tracking_id row.row_generation).0 in
    elim (Bool-cases (any expected setup.store.sheet_rows)) [
      | inl hit ↦ rw hit (
          subst
            (λ id. IsPrepared (record {
              store = t;
              seen = id ∷ setup.seen;
              rows_by_lookup_id =
                  group_row (with_status SheetRowStatus.pending row) setup.rows_by_lookup_id;
              target_rows = setup.target_rows ++ (target_of row ∷ []);
            }))
            named (added-IsPrepared setup row t h (rw named fresh)))
      | inr miss ↦ rw miss (seen-IsPrepared setup row_id t h)
    ]

add_row_id-IsPrepared :
    (sheet_id : Text) (setup : Setup) (row_id : Text)
    → IsPrepared setup
    → IsPrepared (add_row_id sheet_id setup row_id)
unfolding add_row_id
add_row_id-IsPrepared sheet_id setup row_id h =
    by_test (row_id == []) (contains row_id setup.seen) refl (
      any (λ (row : SheetRow). row_has_id row_id row && row.sheet_id == sheet_id)
        setup.store.sheet_rows)
  where
    by_test :
        (blank seen : Bool)
        → contains row_id setup.seen ≡ seen
        → (in_sheet : Bool)
        → IsPrepared (
            if blank || seen
            then setup
            else if in_sheet
            then add_found sheet_id
                (record setup { seen = row_id ∷ setup.seen })
                (find_where (row_has_id row_id) setup.store.sheet_rows)
            else record setup { seen = row_id ∷ setup.seen })
    by_test true seen e in_sheet = h
    by_test false true e in_sheet = h
    by_test false false e true = add_found-IsPrepared sheet_id row_id setup _ refl h e
    by_test false false e false = seen-IsPrepared setup row_id setup.store h

add_row_ids-IsPrepared :
    (sheet_id : Text) (setup : Setup) (row_ids : List Text)
    → IsPrepared setup
    → IsPrepared (add_row_ids sheet_id setup row_ids)
unfolding add_row_ids
add_row_ids-IsPrepared sheet_id setup [] h = h
add_row_ids-IsPrepared sheet_id setup (row_id ∷ row_ids) h =
    add_row_ids-IsPrepared sheet_id (add_row_id sheet_id setup (trim row_id)) row_ids
      (add_row_id-IsPrepared sheet_id setup (trim row_id) h)

setup_of-IsPrepared :
    (s : Store) (sheet_id : Text) (row_ids : List Text) → IsPrepared (setup_of s sheet_id row_ids)
setup_of-IsPrepared s sheet_id row_ids = add_row_ids-IsPrepared sheet_id _ _ empty
  where
    empty : IsPrepared (record { store = s; seen = []; rows_by_lookup_id = []; target_rows = [] })
    empty = record { in_groups = nothing; distinct = nothing_wanted; size = refl }

total_of-eq-length :
    (groups : Groups) → length (grouped groups) < 2 ^ 32 → total_of groups ≡ length (grouped groups)
unfolding total_of
total_of-eq-length [] small = refl
total_of-eq-length ((lookup_id, rows) ∷ rest) small =
    let e = length-append rows (grouped rest) in
    omega (arith, small, e, total_of-eq-length rest (omega (arith, small, e)))

unreturned_start : (targets : List Target) → unreturned [] targets ≤ length targets
unfolding contains sum_by
unreturned_start [] = omega arith
unreturned_start (target ∷ targets) = omega (arith, unreturned_start targets)

once_le : (b : Bool) → once b ≤ 1
once_le true = omega arith
once_le false = omega arith

IsWaiting-start :
    (setup : Setup)
    → IsPrepared setup
    → IsWaiting setup.target_rows [] (grouped setup.rows_by_lookup_id)
unfolding contains
IsWaiting-start setup h id = (
  omega (arith, h.in_groups id, h.distinct id, once_le (contains id setup.seen)),
  omega (arith, h.in_groups id),
)

start_batch-IsInProgress :
    (setup : Setup)
    → IsPrepared setup
    → (small : total_of setup.rows_by_lookup_id < 2 ^ 32)
    → total_of setup.rows_by_lookup_id ≡ length setup.target_rows
    → IsInProgress
        (total_of setup.rows_by_lookup_id)
        setup.target_rows
        small
        (start_batch (total_of setup.rows_by_lookup_id) setup)
unfolding start_batch
start_batch-IsInProgress setup h small size =
    let total_count = total_of setup.rows_by_lookup_id in
    let targets = setup.target_rows in
    let groups = setup.rows_by_lookup_id in
    let first = min (length groups) max_concurrent_tracking_refresh_lookups in
    let b : Batch = record {
      store = setup.store;
      rows_by_lookup_id = [];
      next_lookup_to_activate = first;
      success_count = 0;
      failed_count = 0;
      terminal_row_ids = [];
      rows = [];
      terminal_events = [];
      events = [];
      storage_error = none;
    } in
    let counted : IsCounted total_count targets b = record {
      bounded = omega (arith, size, unreturned_start targets);
      counted = refl;
      balanced = tt;
      balanced_held = tt;
      ended = tt;
    } in
    let (c, active) = activate_first total_count b first groups in
    let step = activate_first-IsActivated total_count targets small b first groups in
    let d : Batch = record c { rows_by_lookup_id = active } in
    let (same, kept) = emit_pending_keeps total_count d (grouped active) in
    let waiting : IsWaiting targets [] (grouped groups) = IsWaiting-start setup h in
    (
      emit_pending-IsCounted total_count targets small d (grouped active) (
          moved-IsCounted total_count targets c c.store active c.next_lookup_to_activate
            c.storage_error (step.counts counted)),
      rw kept (
          rw (same ∙ step.returned) (
            same_rows-IsWaiting targets [] (grouped groups) (grouped active) step.rows_kept
              waiting)),
    )

-- During the refresh of fewer than 2^32 rows, whatever answers come, in whatever order, also twice or
-- for unknown ids, whatever other connections write in between and whatever fails, the counts of
-- successes, failures and pending rows of every event add up to the number of target rows, the two
-- counts at the end add up to the number of rows returned, which is at most that of the target
-- rows, and every row returned was loaded or failed when it was read back.
pub run_batch_counts :
    (write : BlobWriter) (display : TrackingEngineError → Text) (s : Store) (sheet_id : Text)
    (row_ids : List Text) (happenings : List Happening) (batch_error : Option TrackingLookupFailure)
    → length (setup_of s sheet_id row_ids).target_rows < 2 ^ 32
    → let b = run_batch write display (setup_of s sheet_id row_ids) happenings batch_error in
      let total_count = length (setup_of s sheet_id row_ids).target_rows in
      All (IsBalanced total_count) b.events
      × (b.success_count + b.failed_count ≡ length b.rows)
      × (length b.rows ≤ total_count)
      × All IsEnded b.rows
unfolding run_batch
run_batch_counts write display s sheet_id row_ids happenings batch_error few =
    let setup = setup_of s sheet_id row_ids in
    let targets = setup.target_rows in
    let prepared = setup_of-IsPrepared s sheet_id row_ids in
    let groups = setup.rows_by_lookup_id in
    let total_count = total_of groups in
    let total_length : total_count ≡ length (grouped groups) =
      total_of-eq-length groups (omega (arith, prepared.size, few)) in
    let size : total_count ≡ length targets = total_length ∙ prepared.size in
    let small : total_count < 2 ^ 32 = omega (arith, size, few) in
    let b = happen_all write total_count (start_batch total_count setup) happenings in
    let progress =
      happen_all-IsInProgress total_count targets small write (start_batch total_count setup)
        happenings (start_batch-IsInProgress setup prepared small size) in
    let failure = missing_result_error display b.storage_error batch_error in
    let counts = finish_batch-IsCounted total_count targets small failure b progress.0 progress.1 in
    (
      subst (λ n. All (IsBalanced n) (finish_batch total_count failure targets b).events) size
          counts.balanced,
      counts.counted,
      omega (arith, counts.counted, counts.bounded, size),
      counts.ended,
    )
