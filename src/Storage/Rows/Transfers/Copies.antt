-- ===== src/Storage/Rows/Transfers/Copies.antt =====
-- storage.rs: the loop of a transfer, copy by copy.
use ship_flow_tauri.Prelude.{
  Bool, none, map, not, count, is_some, ℕ, suc, ◌+◌, ◌≤◌, ◌<◌, Text, true, false, some, List, [],
  ◌∷◌, ◌++◌, ◌≡◌, refl, sym, subst, ap, ◌∙◌, ◌==◌, text_eq, nat_eq, text_beq_iff, ◌&&◌, ◌||◌, All,
  Bool-cases, Option-cases, inl, inr, arith, length, length-append, append_assoc, text_beq, u32_max,
}
use ship_flow_tauri.Prelude.Trim.{trim}
use ship_flow_tauri.Prelude.Table.{
  find_where, any, any_none, contains, find_where-append_miss, find_where-holds, All-append,
  All-map,
}
use ship_flow_tauri.Storage.Tables.{SheetRow, Result, ok}
use ship_flow_tauri.Storage.Rows.Isolation.{row_has_id, IsKeyed, append-IsKeyed}
use ship_flow_tauri.Storage.Rows.GeneratedIds.{next_available_total}
use ship_flow_tauri.Storage.Rows.Positions.{in_sheet, is_row}
use ship_flow_tauri.Storage.Rows.Positions.Order.{HasUniquePositions, append-HasUniquePositions}
use ship_flow_tauri.Storage.Rows.Transfers.{
  Transfer, copied_row, insert_row, copy_row, transfer_row, transfer_rows,
}
use ship_flow_tauri.Storage.Rows.Transfers.Named.{
  is_named, one_if, count-append, AreCopies, append-AreCopies, AreCopies-target, row_ids-append,
  seen_first, copied_turn,
}

-- Positions one after another, from a first one on.
abbrev pub IsConsecutive : ℕ → List SheetRow → Type 0
IsConsecutive k [] = Unit
IsConsecutive k (row ∷ rows) = (row.position ≡ k) × IsConsecutive (suc k) rows

append-IsConsecutive :
    (k : ℕ) (rows : List SheetRow) (row : SheetRow)
    → IsConsecutive k rows
    → row.position ≡ k + length rows
    → IsConsecutive k (rows ++ (row ∷ []))
append-IsConsecutive k [] row h e = (omega (arith, e), tt)
append-IsConsecutive k (x ∷ xs) row h e =
    (h.0, append-IsConsecutive (suc k) xs row h.1 (omega (arith, e)))

module _ (source target : Text) (before : List SheetRow) where
  -- The loop has added `new` to the rows, from the position `start` on: the copies of `sources`, the
  -- rows of the source with the ids seen, each once.
  pub record IsCopying (start : ℕ) (st : Transfer) : Type 0 where
    pub sources : List SheetRow
    pub new : List SheetRow
    pub added : st.rows ≡ before ++ new
    pub copies : AreCopies target sources new
    pub each :
        All (λ (row : SheetRow). find_where (is_row source row.row_id) before ≡ some row) sources
    pub ids : st.copied_source_row_ids ≡ map (λ (row : SheetRow). row.row_id) sources
    pub chosen :
        (id : Text)
        → count (row_has_id id) sources
          ≡ one_if
              (contains id st.seen_source_row_ids && is_some (find_where (is_row source id) before))
    pub consecutive : IsConsecutive start new
    pub next : st.next_position ≡ start + length new
    pub keyed : IsKeyed st.rows
    pub unique : HasUniquePositions st.rows
    pub below :
        All
          (λ (row : SheetRow). in_sheet target row ≡ true → row.position < st.next_position)
          st.rows

  -- One turn uses at most one row and one position, and sees what it names.
  pub record IsTurn (start : ℕ) (st : Transfer) (names : Text → Bool) (result : Result Transfer)
      : Type 0 where
    pub later : Transfer
    pub succeeds : result ≡ ok later
    pub copying : IsCopying start later
    pub sees :
        (id : Text)
        → contains id later.seen_source_row_ids ≡ (contains id st.seen_source_row_ids || names id)
    pub rows_bound : length later.rows ≤ suc (length st.rows)
    pub position_bound : later.next_position ≤ suc st.next_position

  -- A lookup of a row of the source passes over the copies.
  pub find_source :
      (id : Text) (start : ℕ) (st : Transfer)
      → (source == target) ≡ false
      → IsCopying start st
      → find_where (is_row source id) st.rows ≡ find_where (is_row source id) before
  find_source id start st apart h =
      ap (find_where (is_row source id)) h.added
      ∙ find_where-append_miss (is_row source id) before h.new (
          All-map _ _ h.new
            (λ x e.
              ground (arith, e, apart, text_beq_iff x.sheet_id source, text_beq_iff source target))
            (AreCopies-target target h.sources h.new h.copies))

  chosen_new :
      (id : Text) (row : SheetRow) (start : ℕ) (st : Transfer) (h : IsCopying start st)
      → row.row_id ≡ id
      → contains id st.seen_source_row_ids ≡ false
      → find_where (is_row source id) before ≡ some row
      → (x : Text)
      → count (row_has_id x) (h.sources ++ (row ∷ []))
        ≡ one_if (
            contains x (id ∷ st.seen_source_row_ids)
            && is_some (find_where (is_row source x) before))
  unfolding contains
  chosen_new id row start st h named unseen found x = elim (Bool-cases (id == x)) [
    | inl same ↦
        let e : id ≡ x = (text_beq_iff id x).0 same in
        let found' : find_where (is_row source x) before ≡ some row =
          subst (λ y. find_where (is_row source y) before ≡ some row) e found in
        let unseen' : contains x st.seen_source_row_ids ≡ false =
          subst (λ y. contains y st.seen_source_row_ids ≡ false) e unseen in
        count-append (row_has_id x) h.sources row
        ∙ ground (arith, h.chosen x, found', unseen', same, named)
    | inr other ↦
        count-append (row_has_id x) h.sources row ∙ ground (arith, h.chosen x, other, named)
  ]

  copy_row-IsTurn :
      (sheet_ids : List Text) (source_row_id generation : Text) (row : SheetRow) (start : ℕ)
      (st : Transfer)
      → contains target sheet_ids ≡ true
      → find_where (is_row source source_row_id) before ≡ some row
      → row.row_id ≡ source_row_id
      → contains source_row_id st.seen_source_row_ids ≡ false
      → length st.rows < u32_max
      → st.next_position < u32_max
      → IsCopying start st
      → IsTurn start st
          (λ id. source_row_id == id)
          (copy_row sheet_ids target source_row_id generation row
            (record st { seen_source_row_ids = source_row_id ∷ st.seen_source_row_ids }))
  unfolding copy_row insert_row contains
  copy_row-IsTurn sheet_ids source_row_id generation row start st has found named unseen room fits
        h =
      let (id, searched, fresh) = next_available_total st.rows target st.next_position room in
      let new = copied_row row id target st.next_position generation in
      let here : text_beq target target ≡ true = (text_beq_iff target target).1 refl in
      let free : any
            (λ (other : SheetRow). in_sheet target other && other.position == st.next_position)
            st.rows
          ≡ false =
        any_none _ st.rows (All-map _ _ st.rows (λ x low. ground (arith, low)) h.below) in
      record {
        later = record st {
          rows = st.rows ++ (new ∷ []);
          copied_source_row_ids = st.copied_source_row_ids ++ (source_row_id ∷ []);
          seen_source_row_ids = source_row_id ∷ st.seen_source_row_ids;
          next_position = st.next_position + 1;
        };
        succeeds =
            copied_turn target sheet_ids source_row_id generation row id st has searched fresh free
              fits;
        copying = record {
          sources = h.sources ++ (row ∷ []);
          new = h.new ++ (new ∷ []);
          added = ap (λ rows. rows ++ (new ∷ [])) h.added ∙ append_assoc before h.new (new ∷ []);
          copies = append-AreCopies target h.sources h.new row new h.copies refl;
          each =
              All-append _ h.sources (row ∷ []) h.each
                (subst (λ y. find_where (is_row source y) before ≡ some row) (sym named) found, tt);
          ids = row_ids-append h.sources row st.copied_source_row_ids source_row_id h.ids named;
          chosen = chosen_new source_row_id row start st h named unseen found;
          consecutive = append-IsConsecutive start h.new new h.consecutive h.next;
          next = omega (arith, h.next, length-append h.new (new ∷ []));
          keyed = append-IsKeyed st.rows new fresh h.keyed;
          unique =
              append-HasUniquePositions st.rows new h.unique
                (All-map _ _ st.rows (λ x low. ground (arith, low)) h.below);
          below =
              All-append _ st.rows (new ∷ [])
                (All-map _ _ st.rows (λ x low inside. omega (arith, low inside)) h.below)
                (λ _. omega arith, tt);
        };
        sees = λ x. ground arith;
        rows_bound = omega (arith, length-append st.rows (new ∷ []));
        position_bound = omega arith;
      }

  seen_more :
      (id : Text) (start : ℕ) (st : Transfer)
      → find_where (is_row source id) before ≡ none
      → IsCopying start st
      → IsCopying start (record st { seen_source_row_ids = id ∷ st.seen_source_row_ids })
  unfolding contains
  seen_more id start st missing h = record {
    sources = h.sources;
    new = h.new;
    added = h.added;
    copies = h.copies;
    each = h.each;
    ids = h.ids;
    chosen = λ x. elim (Bool-cases (id == x)) [
      | inl same ↦
          let e : id ≡ x = (text_beq_iff id x).0 same in
          let missing' : find_where (is_row source x) before ≡ none =
            subst (λ y. find_where (is_row source y) before ≡ none) e missing in
          ground (arith, h.chosen x, missing', same)
      | inr other ↦ ground (arith, h.chosen x, other)
    ];
    consecutive = h.consecutive;
    next = h.next;
    keyed = h.keyed;
    unique = h.unique;
    below = h.below;
  }

  skipped-IsTurn :
      (given : Text) (start : ℕ) (st : Transfer)
      → (trim given == [] || contains (trim given) st.seen_source_row_ids) ≡ true
      → IsCopying start st
      → IsTurn start st (λ id. not (trim given == []) && trim given == id) (ok st)
  skipped-IsTurn given start st skipped h = record {
    later = st;
    succeeds = refl;
    copying = h;
    sees = λ x. elim (Bool-cases (trim given == x)) [
      | inl same ↦ ground (
        arith,
        skipped,
        same,
        ap (λ y. contains y st.seen_source_row_ids) ((text_beq_iff (trim given) x).0 same),
      )
      | inr other ↦ ground (arith, other)
    ];
    rows_bound = omega arith;
    position_bound = omega arith;
  }

  transfer_row-IsTurn :
      (sheet_ids : List Text) (given generation : Text) (start : ℕ) (st : Transfer)
      → contains target sheet_ids ≡ true
      → (source == target) ≡ false
      → length st.rows < u32_max
      → st.next_position < u32_max
      → IsCopying start st
      → IsTurn start st
          (λ id. not (trim given == []) && trim given == id)
          (transfer_row sheet_ids source target given generation st)
  unfolding transfer_row
  transfer_row-IsTurn sheet_ids given generation start st has apart room fits h =
      elim (Bool-cases (trim given == [] || contains (trim given) st.seen_source_row_ids)) [
        | inl skipped ↦ rw skipped (skipped-IsTurn given start st skipped h)
        | inr tried ↦
            rw tried (elim (Option-cases (find_where (is_row source (trim given)) st.rows)) [
              | inl missing ↦ rw missing (record {
                later = record st { seen_source_row_ids = trim given ∷ st.seen_source_row_ids };
                succeeds = refl;
                copying =
                    seen_more (trim given) start st
                      (sym (find_source (trim given) start st apart h) ∙ missing) h;
                sees =
                    λ x. seen_first (trim given) x st.seen_source_row_ids (ground (arith, tried));
                rows_bound = omega arith;
                position_bound = omega arith;
              })
              | inr (row, found) ↦ rw found (
                  let named = find_where-holds (is_row source (trim given)) st.rows row found in
                  let turn =
                    copy_row-IsTurn sheet_ids (trim given) generation row start st has
                      (sym (find_source (trim given) start st apart h) ∙ found)
                      ((text_beq_iff row.row_id (trim given)).0 (ground (arith, named)))
                      (ground (arith, tried)) room fits h in
                  record {
                    later = turn.later;
                    succeeds = turn.succeeds;
                    copying = turn.copying;
                    sees = λ x. turn.sees x ∙ ground (arith, tried);
                    rows_bound = turn.rows_bound;
                    position_bound = turn.position_bound;
                  })
            ])
      ]

  -- The loop succeeds where there is room for all its rows.
  pub transfer_rows_total :
      (sheet_ids : List Text) (inputs : List (Text × Text)) (start : ℕ) (st : Transfer)
      → contains target sheet_ids ≡ true
      → (source == target) ≡ false
      → length st.rows + length inputs ≤ u32_max
      → st.next_position + length inputs ≤ u32_max
      → IsCopying start st
      → (later : Transfer) × (transfer_rows sheet_ids source target inputs st ≡ ok later)
        × IsCopying start later
        × ((id : Text)
            → contains id later.seen_source_row_ids
              ≡ (contains id st.seen_source_row_ids || is_named id inputs))
        × (length later.rows ≤ length st.rows + length inputs)
  unfolding transfer_rows
  transfer_rows_total sheet_ids [] start st has apart room fits h =
      (st, refl, h, λ id. ground arith, omega arith)
  transfer_rows_total sheet_ids ((given, generation) ∷ rest) start st has apart room fits h =
      let turn =
        transfer_row-IsTurn sheet_ids given generation start st has apart (omega (arith, room))
          (omega (arith, fits)) h in
      let (later, run, copying, sees, bound) =
        transfer_rows_total sheet_ids rest start turn.later has apart
          (omega (arith, room, turn.rows_bound)) (omega (arith, fits, turn.position_bound))
          turn.copying in
      (
        later,
        rw turn.succeeds run,
        copying,
        λ id. sees id ∙ ground (arith, turn.sees id),
        omega (arith, bound, turn.rows_bound),
      )
