-- ===== src/Tracking/Answers/Steps.antt =====
-- tracking.rs: the callback of a batch, and the groups that it activates, keep the counts right.
use ship_flow_tauri.Prelude.{
  ℕ, zero, suc, ◌^◌, ◌<◌, Text, Bool, true, false, Option, none, some, List, [], ◌∷◌, ◌++◌, ◌≡◌,
  refl, ◌∙◌, subst, inl, inr, ◌==◌, text_eq, sum_by, sum_by-append, weight_of, Bool-cases,
  if◌then◌else◌, arith,
}
use ship_flow_tauri.Prelude.Table.{any, update_where}
use ship_flow_tauri.Storage.Tables.{Store, SheetRow, SheetRowStatus}
use ship_flow_tauri.Storage.Rows.Isolation.{row_has_id}
use ship_flow_tauri.Storage.Rows.Lookups.{
  is_expected, with_row_status, update_sheet_row_status_if_lookup_matches,
}
use ship_flow_tauri.Tracking.Rows.{status_input}
use ship_flow_tauri.Tracking.Batches.{
  Target, Groups, Batch, grouped, emit, with_status, activate_row, activate_rows, activate_at,
  activate_first, emit_pending, is_pending,
}
use ship_flow_tauri.Tracking.Answers.{put_back, take_group}
use ship_flow_tauri.Tracking.Answers.Counts.{IsCounted, IsWaiting, times, emit-IsCounted}
use ship_flow_tauri.Tracking.Answers.Progress.{moved-IsCounted}

-- The same rows, each as often as before.
abbrev pub IsSameRows : List SheetRow → List SheetRow → Type 0
IsSameRows rows others = (id : Text) → times id rows ≡ times id others

-- The group of an answer and the rest have the rows of all groups.
pub taken_rows :
    (lookup_id : Text) (groups : Groups) (rows : List SheetRow) (others : Groups)
    → take_group lookup_id groups ≡ some (rows, others)
    → IsSameRows (rows ++ grouped others) (grouped groups)
unfolding take_group
taken_rows lookup_id [] rows others h id = ground (arith, h)
taken_rows lookup_id ((candidate, first) ∷ rest) rows others h id =
    elim (Bool-cases (candidate == lookup_id)) [
      | inl hit ↦
          let e : (first, (candidate, []) ∷ rest) ≡ (rows, others) = ground (arith, h, hit) in
          subst
            (λ (x : List SheetRow × Groups).
              times id (x.0 ++ grouped x.1) ≡ times id (first ++ grouped rest))
            e refl
      | inr miss ↦
          by_rest (take_group lookup_id rest)
            (λ taken left e. taken_rows lookup_id rest taken left e id) (ground (arith, h, miss))
    ]
  where
    by_rest :
        (later : Option (List SheetRow × Groups))
        → ((taken : List SheetRow) (left : Groups)
            → later ≡ some (taken, left)
            → times id (taken ++ grouped left) ≡ times id (grouped rest))
        → put_back candidate first later ≡ some (rows, others)
        → times id (rows ++ grouped others) ≡ times id (first ++ grouped rest)
    by_rest none same g = ground (arith, g)
    by_rest (some (taken, left)) same g =
        let e1 : (taken, (candidate, first) ∷ left) ≡ (rows, others) = ground (arith, g) in
        let w = weight_of (row_has_id id) in
        subst
          (λ (x : List SheetRow × Groups).
            times id (x.0 ++ grouped x.1) ≡ times id (first ++ grouped rest))
          e1
          (omega (
            arith,
            same taken left refl,
            sum_by-append w taken (first ++ grouped left),
            sum_by-append w first (grouped left),
            sum_by-append w taken (grouped left),
            sum_by-append w first (grouped rest),
          ))

pub same_rows-IsWaiting :
    (targets : List Target) (terminal : List Text) (rows others : List SheetRow)
    → IsSameRows others rows
    → IsWaiting targets terminal rows
    → IsWaiting targets terminal others
same_rows-IsWaiting targets terminal rows others same h id =
    (omega (arith, same id, (h id).0), omega (arith, same id, (h id).1))

pub same_behind :
    (rest rows active : List SheetRow)
    → IsSameRows active rows
    → IsSameRows (active ++ rest) (rows ++ rest)
same_behind rest rows active same id =
    let w = weight_of (row_has_id id) in
    omega (arith, same id, sum_by-append w active rest, sum_by-append w rows rest)

same_before :
    (first rows active : List SheetRow)
    → IsSameRows active rows
    → IsSameRows (first ++ active) (first ++ rows)
same_before first rows active same id =
    let w = weight_of (row_has_id id) in
    omega (arith, same id, sum_by-append w first active, sum_by-append w first rows)

-- What an activation does: the counts stay right, and so do the rows that were returned or wait.
pub record IsActivated (total_count : ℕ) (targets : List Target) (b c : Batch)
    (rows active : List SheetRow) : Type 0 where
  pub counts : IsCounted total_count targets b → IsCounted total_count targets c
  pub returned : c.terminal_row_ids ≡ b.terminal_row_ids
  pub rows_kept : IsSameRows active rows

module _ (total_count : ℕ) (targets : List Target) (small : total_count < 2 ^ 32) where
  activate_row-IsCounted :
      (b : Batch) (row : SheetRow)
      → IsCounted total_count targets b
      → IsCounted total_count targets (activate_row total_count b row).0
  unfolding activate_row update_sheet_row_status_if_lookup_matches
  activate_row-IsCounted b row h =
      let expected = is_expected row.row_id row.lookup_tracking_id row.row_generation in
      let t : Store = record b.store {
        sheet_rows =
            update_where expected (with_row_status (status_input row SheetRowStatus.loading))
              b.store.sheet_rows;
      } in
      let c : Batch = record b { store = t } in
      let moved =
        moved-IsCounted total_count targets b t b.rows_by_lookup_id b.next_lookup_to_activate
          b.storage_error h in
      elim (Bool-cases (any expected b.store.sheet_rows)) [
        | inl hit ↦ rw hit (
            emit-IsCounted total_count targets small (with_status SheetRowStatus.loading row) c
              moved)
        | inr miss ↦ rw miss moved
      ]

  activate_row_keeps :
      (b : Batch) (row : SheetRow)
      → ((activate_row total_count b row).0.terminal_row_ids ≡ b.terminal_row_ids)
        × ((activate_row total_count b row).1.row_id ≡ row.row_id)
  unfolding activate_row
  activate_row_keeps b row = ground (arith)

  pub activate_rows-IsActivated :
      (b : Batch) (rows : List SheetRow)
      → IsActivated total_count targets b
          (activate_rows total_count b rows).0
          rows
          (activate_rows total_count b rows).1
  unfolding activate_rows sum_by
  activate_rows-IsActivated b [] = record {
    counts = λ h. h;
    returned = refl;
    rows_kept = λ id. refl;
  }
  activate_rows-IsActivated b (row ∷ rows) =
      let (c, active) = activate_row total_count b row in
      let (same, named) = activate_row_keeps b row in
      let rest = activate_rows-IsActivated c rows in
      record {
        counts = λ h. rest.counts (activate_row-IsCounted b row h);
        returned = rest.returned ∙ same;
        rows_kept = λ id. rw named (omega (arith, rest.rows_kept id));
      }

  pub activate_at-IsActivated :
      (b : Batch) (index : ℕ) (groups : Groups)
      → IsActivated total_count targets b
          (activate_at total_count b index groups).0
          (grouped groups)
          (grouped (activate_at total_count b index groups).1)
  unfolding activate_at
  activate_at-IsActivated b index [] = record {
    counts = λ h. h;
    returned = refl;
    rows_kept = λ id. refl;
  }
  activate_at-IsActivated b zero ((lookup_id, rows) ∷ rest) =
      let first = activate_rows-IsActivated b rows in
      record {
        counts = first.counts;
        returned = first.returned;
        rows_kept = λ id. same_behind (grouped rest) rows _ first.rows_kept id;
      }
  activate_at-IsActivated b (suc index) ((lookup_id, rows) ∷ rest) =
      let later = activate_at-IsActivated b index rest in
      record {
        counts = later.counts;
        returned = later.returned;
        rows_kept = λ id. same_before rows (grouped rest) _ later.rows_kept id;
      }

  pub activate_first-IsActivated :
      (b : Batch) (n : ℕ) (groups : Groups)
      → IsActivated total_count targets b
          (activate_first total_count b n groups).0
          (grouped groups)
          (grouped (activate_first total_count b n groups).1)
  unfolding activate_first
  activate_first-IsActivated b zero groups = record {
    counts = λ h. h;
    returned = refl;
    rows_kept = λ id. refl;
  }
  activate_first-IsActivated b (suc n) [] = record {
    counts = λ h. h;
    returned = refl;
    rows_kept = λ id. refl;
  }
  activate_first-IsActivated b (suc n) ((lookup_id, rows) ∷ rest) =
      let first = activate_rows-IsActivated b rows in
      let (c, active) = activate_rows total_count b rows in
      let later = activate_first-IsActivated c n rest in
      record {
        counts = λ h. later.counts (first.counts h);
        returned = later.returned ∙ first.returned;
        rows_kept = λ id.
            same_before active (grouped rest) _ later.rows_kept id
            ∙ same_behind (grouped rest) rows active first.rows_kept id;
      }

  pub emit_pending-IsCounted :
      (b : Batch) (rows : List SheetRow)
      → IsCounted total_count targets b
      → IsCounted total_count targets (emit_pending total_count b rows)
  unfolding emit_pending
  emit_pending-IsCounted b [] h = h
  emit_pending-IsCounted b (row ∷ rows) h =
      emit_pending-IsCounted (if is_pending row then emit total_count row b else b) rows
        (by_test (is_pending row))
    where
      by_test : (c : Bool) → IsCounted total_count targets (if c then emit total_count row b else b)
      by_test true = emit-IsCounted total_count targets small row b h
      by_test false = h

pub emit_pending_keeps :
    (total_count : ℕ) (b : Batch) (rows : List SheetRow)
    → ((emit_pending total_count b rows).terminal_row_ids ≡ b.terminal_row_ids)
      × ((emit_pending total_count b rows).rows_by_lookup_id ≡ b.rows_by_lookup_id)
unfolding emit_pending
emit_pending_keeps total_count b [] = (refl, refl)
emit_pending_keeps total_count b (row ∷ rows) =
    let c = if is_pending row then emit total_count row b else b in
    let rest = emit_pending_keeps total_count c rows in
    let (same, kept) = by_test (is_pending row) in (rest.0 ∙ same, rest.1 ∙ kept)
  where
    by_test :
        (c : Bool)
        → ((if c then emit total_count row b else b).terminal_row_ids ≡ b.terminal_row_ids)
          × ((if c then emit total_count row b else b).rows_by_lookup_id ≡ b.rows_by_lookup_id)
    by_test true = (refl, refl)
    by_test false = (refl, refl)
