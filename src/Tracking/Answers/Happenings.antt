-- ===== src/Tracking/Answers/Happenings.antt =====
-- tracking.rs: the counts of a batch while it waits, and when the rows without an answer fail.
use ship_flow_tauri.Prelude.{
  ℕ, suc, ◌^◌, ◌<◌, Text, Option, none, some, List, [], ◌∷◌, ◌++◌, ◌≡◌, refl, sym, subst, ◌∙◌, inl,
  inr, text_eq, ltb, length, Bool-cases,
}
use ship_flow_tauri.Prelude.Table.{All-append}
use ship_flow_tauri.Prelude.Outcome.{ok, err}
use ship_flow_tauri.Storage.Tables.{SheetRow}
use ship_flow_tauri.Tracking.Rows.{
  TrackingEngineError, TrackingEngineResult, Answer, BlobWriter, store_failed_tracking_lookup,
  store_successful_tracking_response,
}
use ship_flow_tauri.Tracking.Batches.{
  Target, Groups, Batch, Happening, grouped, count_success, count_failure, activate_at,
}
use ship_flow_tauri.Tracking.Answers.{
  settle_stored, settle_row, settle_group, take_group, flush, with_groups, after_group,
  activate_next, settle_taken, on_result, happen, happen_all,
}
use ship_flow_tauri.Tracking.Answers.Counts.{IsBalanced, IsCounted, IsWaiting}
use ship_flow_tauri.Tracking.Answers.Progress.{IsSound, moved-IsCounted, settle_group-IsSound}
use ship_flow_tauri.Tracking.Answers.Steps.{
  taken_rows, same_rows-IsWaiting, activate_at-IsActivated,
}

settle_stored_groups :
    (total_count : ℕ) (counted : Batch → Batch) (b : Batch)
    (stored : TrackingEngineResult (Option SheetRow))
    → ((c : Batch) → (counted c).rows_by_lookup_id ≡ c.rows_by_lookup_id)
    → (settle_stored total_count counted b stored).rows_by_lookup_id ≡ b.rows_by_lookup_id
unfolding settle_stored
settle_stored_groups total_count counted b (err problem) keeps = refl
settle_stored_groups total_count counted b (ok none) keeps = refl
settle_stored_groups total_count counted b (ok (some row)) keeps = keeps b

settle_row_groups :
    (write : BlobWriter) (total_count : ℕ) (b : Batch) (row : SheetRow) (answer : Answer)
    → (settle_row write total_count b row answer).rows_by_lookup_id ≡ b.rows_by_lookup_id
unfolding settle_row
settle_row_groups write total_count b row (ok response) =
    let (stored, t) = store_successful_tracking_response write b.store row response in
    settle_stored_groups total_count count_success (record b { store = t }) stored (λ c. refl)
settle_row_groups write total_count b row (err failure) =
    let (stored, t) = store_failed_tracking_lookup b.store row failure in
    settle_stored_groups total_count count_failure (record b { store = t }) stored (λ c. refl)

settle_group_groups :
    (write : BlobWriter) (total_count : ℕ) (b : Batch) (rows : List SheetRow) (answer : Answer)
    → (settle_group write total_count b rows answer).rows_by_lookup_id ≡ b.rows_by_lookup_id
unfolding settle_group
settle_group_groups write total_count b [] answer = refl
settle_group_groups write total_count b (row ∷ rows) answer =
    let next = settle_row write total_count b row answer in
    let same = settle_row_groups write total_count b row answer in
    by_error next (settle_group write total_count next rows answer) next.storage_error same
      (settle_group_groups write total_count next rows answer ∙ same)
  where
    by_error :
        (c d : Batch) (problem : Option TrackingEngineError)
        → c.rows_by_lookup_id ≡ b.rows_by_lookup_id
        → d.rows_by_lookup_id ≡ b.rows_by_lookup_id
        → (elim problem as (λ _. Batch) [ some e ↦ c | none ↦ d ]).rows_by_lookup_id
          ≡ b.rows_by_lookup_id
    by_error c d (some e) stop go = stop
    by_error c d none stop go = go

module _ (total_count : ℕ) (targets : List Target) (small : total_count < 2 ^ 32) where
  -- The counts are right, and the groups have the rows that wait.
  abbrev pub IsInProgress : Batch → Type 0
  IsInProgress b = IsSound total_count targets b (grouped b.rows_by_lookup_id)

  flush-IsInProgress : (b : Batch) → IsInProgress b → IsInProgress (flush b)
  flush-IsInProgress b h = (
    record {
      bounded = h.0.bounded;
      counted = h.0.counted;
      balanced =
          All-append (IsBalanced total_count) b.events b.terminal_events h.0.balanced
            h.0.balanced_held;
      balanced_held = tt;
      ended = h.0.ended;
    },
    h.1,
  )

  activate_next-IsInProgress :
      (b : Batch) → IsInProgress b → IsInProgress (activate_next total_count b)
  unfolding activate_next
  activate_next-IsInProgress b h =
      let next = b.next_lookup_to_activate in
      let groups = b.rows_by_lookup_id in
      let (c, active) = activate_at total_count b next groups in
      let step = activate_at-IsActivated total_count targets small b next groups in
      elim (Bool-cases (ltb next (length groups))) [
        | inr last ↦ rw last h
        | inl more ↦ rw more (
          moved-IsCounted total_count targets c c.store active (suc c.next_lookup_to_activate)
              c.storage_error (step.counts h.0),
          subst (λ terminal. IsWaiting targets terminal (grouped active)) (sym step.returned)
              (same_rows-IsWaiting targets b.terminal_row_ids (grouped groups) (grouped active)
                step.rows_kept h.1),
        )
      ]

  after_group-IsInProgress : (b : Batch) → IsInProgress b → IsInProgress (after_group total_count b)
  after_group-IsInProgress b h =
      by_error b.storage_error h (activate_next-IsInProgress (flush b) (flush-IsInProgress b h))
    where
      by_error :
          {c d : Batch} (problem : Option TrackingEngineError)
          → IsInProgress c
          → IsInProgress d
          → IsInProgress (elim problem [ some e ↦ c | none ↦ d ])
      by_error (some e) stop go = stop
      by_error none stop go = go

  settle_taken-IsInProgress :
      (write : BlobWriter) (b : Batch) (lookup_id : Text) (answer : Answer)
      (taken : Option (List SheetRow × Groups))
      → take_group lookup_id b.rows_by_lookup_id ≡ taken
      → IsInProgress b
      → IsInProgress (settle_taken write total_count b answer taken)
  unfolding settle_taken
  settle_taken-IsInProgress write b lookup_id answer none e h = h
  settle_taken-IsInProgress write b lookup_id answer (some (rows, groups)) e h =
      let start = with_groups groups b in
      let counted : IsCounted total_count targets start = record {
        bounded = h.0.bounded;
        counted = h.0.counted;
        balanced = h.0.balanced;
        balanced_held = tt;
        ended = h.0.ended;
      } in
      let waiting =
        same_rows-IsWaiting targets b.terminal_row_ids (grouped b.rows_by_lookup_id)
          (rows ++ grouped groups) (taken_rows lookup_id b.rows_by_lookup_id rows groups e) h.1 in
      let c = settle_group write total_count start rows answer in
      let sound =
        settle_group-IsSound total_count targets small write start rows (grouped groups) answer
          (counted, waiting) in
      after_group-IsInProgress c (
        subst (λ g. IsSound total_count targets c (grouped g))
          (sym (settle_group_groups write total_count start rows answer)) sound)

  happen-IsInProgress :
      (write : BlobWriter) (b : Batch) (happening : Happening)
      → IsInProgress b
      → IsInProgress (happen write total_count b happening)
  unfolding happen on_result
  happen-IsInProgress write b (Happening.written change) h = (
    moved-IsCounted total_count targets b (change b.store) b.rows_by_lookup_id
        b.next_lookup_to_activate b.storage_error h.0,
    h.1,
  )
  happen-IsInProgress write b (Happening.answered lookup_id answer) h =
      by_error b.storage_error (settle_taken-IsInProgress write b lookup_id answer _ refl h)
    where
      by_error :
          {d : Batch} (problem : Option TrackingEngineError)
          → IsInProgress d
          → IsInProgress (elim problem [ some e ↦ b | none ↦ d ])
      by_error (some e) go = h
      by_error none go = go

  pub happen_all-IsInProgress :
      (write : BlobWriter) (b : Batch) (happenings : List Happening)
      → IsInProgress b
      → IsInProgress (happen_all write total_count b happenings)
  unfolding happen_all
  happen_all-IsInProgress write b [] h = h
  happen_all-IsInProgress write b (happening ∷ rest) h =
      happen_all-IsInProgress write (happen write total_count b happening) rest
        (happen-IsInProgress write b happening h)
