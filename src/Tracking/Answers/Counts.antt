-- ===== src/Tracking/Answers/Counts.antt =====
-- tracking.rs: the counts of a batch. Each target row is counted at most once: while it is in a
-- group it was not, and one that was is skipped from then on.
use ship_flow_tauri.Prelude.{
  ℕ, suc, ◌+◌, ◌^◌, ◌≤◌, ◌<◌, Text, Bool, true, false, List, [], ◌∷◌, ◌≡◌, refl, inl, inr, ◌==◌,
  text_eq, text_beq_iff, not, All, count, sum_by, length, length-append, Bool-cases, arith,
}
use ship_flow_tauri.Prelude.Table.{contains, All-append}
use ship_flow_tauri.Storage.Tables.{SheetRow, SheetRowStatus}
use ship_flow_tauri.Storage.Rows.Isolation.{row_has_id}
use ship_flow_tauri.Tracking.Batches.{
  TrackingRefreshProgressEvent, Target, Batch, progress, emit, hold, count_success, count_failure,
  push_row,
}

abbrev pub target_has_id : Text → Target → Bool
target_has_id id target = target.row_id == id

abbrev is_unreturned : List Text → Target → Bool
is_unreturned terminal target = not (contains target.row_id terminal)

abbrev pub unreturned : List Text → List Target → ℕ
unreturned terminal targets = count (is_unreturned terminal) targets

abbrev pub times : Text → List SheetRow → ℕ
times id rows = count (row_has_id id) rows

abbrev pub requested_times : Text → List Target → ℕ
requested_times id targets = count (target_has_id id) targets

abbrev pub once : Bool → ℕ
once true = 1
once false = 0

-- The counts of an event add up to the total, which it names.
abbrev pub IsBalanced : ℕ → TrackingRefreshProgressEvent → Type 0
IsBalanced total_count event =
    (event.success_count + (event.failed_count + event.pending_count) ≡ total_count)
    × (event.total_count ≡ total_count)

abbrev pub is_ended : SheetRow → Bool
is_ended row = elim row.row_status [
  | SheetRowStatus.loaded ↦ true
  | SheetRowStatus.failed ↦ true
  | _ ↦ false
]

abbrev pub IsEnded : SheetRow → Type 0
IsEnded row = is_ended row ≡ true

pub record IsCounted (total_count : ℕ) (targets : List Target) (b : Batch) : Type 0 where
  pub bounded :
      (b.success_count + b.failed_count) + unreturned b.terminal_row_ids targets ≤ total_count
  pub counted : b.success_count + b.failed_count ≡ length b.rows
  pub balanced : All (IsBalanced total_count) b.events
  pub balanced_held : All (IsBalanced total_count) b.terminal_events
  pub ended : All IsEnded b.rows

-- The rows that wait in groups are targets, each once, and not among those that were returned.
abbrev pub IsWaiting : List Target → List Text → List SheetRow → Type 0
IsWaiting targets terminal rows =
    (id : Text)
    → (times id rows + once (contains id terminal) ≤ 1)
      × (times id rows ≤ requested_times id targets)

-- A row that is returned is one target fewer.
unreturned_cons :
    (id : Text) (terminal : List Text) (targets : List Target)
    → contains id terminal ≡ false
    → unreturned (id ∷ terminal) targets + requested_times id targets ≤ unreturned terminal targets
unfolding contains sum_by
unreturned_cons id terminal [] fresh = omega arith
unreturned_cons id terminal (target ∷ targets) fresh =
    let rest = unreturned_cons id terminal targets fresh in
    elim (Bool-cases (target.row_id == id)) [
      | inl same ↦
          let e = (text_beq_iff target.row_id id).0 same in
          let missed : contains target.row_id terminal ≡ false = rw e fresh in
          ground (arith, same, missed, rest, text_beq_iff id target.row_id, e)
      | inr other ↦
          ground (arith, other, rest, text_beq_iff id target.row_id, text_beq_iff target.row_id id)
    ]

module _ (total_count : ℕ) (targets : List Target) (small : total_count < 2 ^ 32) where
  pub emit-IsCounted :
      (row : SheetRow) (b : Batch)
      → IsCounted total_count targets b
      → IsCounted total_count targets (emit total_count row b)
  emit-IsCounted row b h = record {
    bounded = h.bounded;
    counted = h.counted;
    balanced =
        All-append (IsBalanced total_count) b.events (progress total_count b row ∷ []) h.balanced
          ((omega (arith, h.bounded), refl), tt);
    balanced_held = h.balanced_held;
    ended = h.ended;
  }

  -- A row that is counted and returned.
  push_row-IsCounted :
      (row : SheetRow) (b c : Batch)
      → IsCounted total_count targets b
      → contains row.row_id b.terminal_row_ids ≡ false
      → 1 ≤ requested_times row.row_id targets
      → IsEnded row
      → c.success_count + c.failed_count ≡ suc (b.success_count + b.failed_count)
      → c.terminal_row_ids ≡ b.terminal_row_ids
      → c.rows ≡ b.rows
      → All (IsBalanced total_count) c.events
      → All (IsBalanced total_count) c.terminal_events
      → IsCounted total_count targets (push_row row c)
  push_row-IsCounted row b c h fresh asked row_ended sum same_ids same_rows balanced held = record {
    bounded = rw same_ids (
        omega (
          arith,
          h.bounded,
          sum,
          asked,
          unreturned_cons row.row_id b.terminal_row_ids targets fresh,
        ));
    counted = rw same_rows (omega (arith, sum, h.counted, length-append b.rows (row ∷ [])));
    balanced = balanced;
    balanced_held = held;
    ended = rw same_rows (All-append IsEnded b.rows (row ∷ []) h.ended (row_ended, tt));
  }

  -- There is a target more than were counted.
  room :
      (row : SheetRow) (b : Batch)
      → IsCounted total_count targets b
      → contains row.row_id b.terminal_row_ids ≡ false
      → 1 ≤ requested_times row.row_id targets
      → suc (b.success_count + b.failed_count) ≤ total_count
  room row b h fresh asked =
      omega (arith, h.bounded, asked, unreturned_cons row.row_id b.terminal_row_ids targets fresh)

  pub settle_success-IsCounted :
      (row : SheetRow) (b : Batch)
      → IsCounted total_count targets b
      → contains row.row_id b.terminal_row_ids ≡ false
      → 1 ≤ requested_times row.row_id targets
      → IsEnded row
      → IsCounted total_count targets (push_row row (hold total_count row (count_success b)))
  settle_success-IsCounted row b h fresh asked row_ended =
      let less = room row b h fresh asked in
      push_row-IsCounted row b (hold total_count row (count_success b)) h fresh asked row_ended
        (omega (arith, less, small)) refl refl h.balanced
        (All-append (IsBalanced total_count) b.terminal_events
          (progress total_count (count_success b) row ∷ []) h.balanced_held
          ((omega (arith, less, small), refl), tt))

  pub settle_failure-IsCounted :
      (row : SheetRow) (b : Batch)
      → IsCounted total_count targets b
      → contains row.row_id b.terminal_row_ids ≡ false
      → 1 ≤ requested_times row.row_id targets
      → IsEnded row
      → IsCounted total_count targets (push_row row (hold total_count row (count_failure b)))
  settle_failure-IsCounted row b h fresh asked row_ended =
      let less = room row b h fresh asked in
      push_row-IsCounted row b (hold total_count row (count_failure b)) h fresh asked row_ended
        (omega (arith, less, small)) refl refl h.balanced
        (All-append (IsBalanced total_count) b.terminal_events
          (progress total_count (count_failure b) row ∷ []) h.balanced_held
          ((omega (arith, less, small), refl), tt))

  pub fail-IsCounted :
      (row : SheetRow) (b : Batch)
      → IsCounted total_count targets b
      → contains row.row_id b.terminal_row_ids ≡ false
      → 1 ≤ requested_times row.row_id targets
      → IsEnded row
      → IsCounted total_count targets (push_row row (emit total_count row (count_failure b)))
  fail-IsCounted row b h fresh asked row_ended =
      let less = room row b h fresh asked in
      push_row-IsCounted row b (emit total_count row (count_failure b)) h fresh asked row_ended
        (omega (arith, less, small)) refl refl
        (All-append (IsBalanced total_count) b.events
          (progress total_count (count_failure b) row ∷ []) h.balanced
          ((omega (arith, less, small), refl), tt))
        h.balanced_held

-- A row that waits, and those that wait behind it.
module _ (targets : List Target) (terminal : List Text) (row : SheetRow)
    (rows : List SheetRow) where
  pub IsWaiting-first :
      IsWaiting targets terminal (row ∷ rows)
      → (contains row.row_id terminal ≡ false) × (1 ≤ requested_times row.row_id targets)
  unfolding sum_by
  IsWaiting-first h =
      let e = (text_beq_iff row.row_id row.row_id).1 refl in
      (ground (arith, (h row.row_id).0, e), ground (arith, (h row.row_id).1, e))

  pub IsWaiting-skip : IsWaiting targets terminal (row ∷ rows) → IsWaiting targets terminal rows
  unfolding sum_by
  IsWaiting-skip h id = (omega (arith, (h id).0), omega (arith, (h id).1))

  pub IsWaiting-push :
      IsWaiting targets terminal (row ∷ rows) → IsWaiting targets (row.row_id ∷ terminal) rows
  unfolding sum_by contains
  IsWaiting-push h id = (ground (arith, (h id).0), omega (arith, (h id).1))
