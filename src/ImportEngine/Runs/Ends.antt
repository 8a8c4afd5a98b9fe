-- ===== src/ImportEngine/Runs/Ends.antt =====
-- import_engine.rs: a run of a job to its end.
use ship_flow_tauri.Prelude.{
  ℕ, zero, suc, ◌+◌, ◌-◌, ◌≤◌, ◌<◌, max, Text, Option, some, none, List, [], ◌∷◌, ◌≡◌, refl, sym,
  ap, subst, ◌∙◌, ◌==◌, text_eq, count, Bool-cases, Option-cases, inl, inr, arith,
  filter-count_zero, sum_by, nat_eq,
}
use ship_flow_tauri.Prelude.Outcome.{ok, err, ok-injective, Outcome-cases}
use ship_flow_tauri.Storage.Tables.{WorkspaceStoreError, Store, ImportJob, ImportJobItem}
use ship_flow_tauri.Storage.Jobs.{
  claim_item, first_item, claimed, item_of_job, is_claimable, get_import_job_summary,
  claim_next_pending_import_job_item,
}
use ship_flow_tauri.Storage.Jobs.Counts.{IsConsistent}
use ship_flow_tauri.Storage.Jobs.Counts.Claims.{claim-IsConsistent}
use ship_flow_tauri.Storage.Jobs.Counts.Order.{claim_first}
use ship_flow_tauri.ImportEngine.{ImportEngineResult, ImportEngineError, max_import_job_items}
use ship_flow_tauri.ImportEngine.Runs.{
  ImportLookupSource, job_size, run_turn, ended, run_items, run_job,
}
use ship_flow_tauri.ImportEngine.Runs.Waiting.{waits_in, waiting}
use ship_flow_tauri.ImportEngine.Runs.Grown.{claim-waiting}
use ship_flow_tauri.ImportEngine.Runs.Turns.{run_turn-IsTurn}

-- A claim that finds nothing changes nothing.
claim-nothing :
    (s : Store) (job_id : Text) (now : ℕ) (t : Store)
    → claim_next_pending_import_job_item s job_id now ≡ ok (none, t)
    → IsConsistent s
    → (t ≡ s) × (count (is_claimable s job_id) s.items ≡ 0)
unfolding claim_next_pending_import_job_item claim_item first_item
claim-nothing s job_id now t h c = elim (Bool-cases (count (is_claimable s job_id) s.items == 0)) [
  | inl zeroed ↦
      let none_left : count (is_claimable s job_id) s.items ≡ 0 = ground (arith, zeroed) in
      let h' = rw (filter-count_zero (is_claimable s job_id) s.items none_left) at h in
      (ap (λ (p : Option ImportJobItem × Store). p.1) (sym (ok-injective h')), none_left)
  | inr some_left ↦
      let (item, u, taken, _, _, _) = claim_first s job_id now c (ground (arith, some_left)) in
      let e : Path (Option ImportJobItem × Store) (none, t) (some (claimed item), u) =
        ok-injective (sym h ∙ taken) in
      absurd cc
]

-- The result of a run: an error, or a store whose counts are true, in which no item of the job may be
-- claimed.
abbrev pub IsFinished : {W : Type 0} → Text → Option (ImportEngineResult (Store × W)) → Type 0
IsFinished job_id none = ⊥
IsFinished job_id (some (err problem)) = Unit
IsFinished job_id (some (ok (t, later))) =
    IsConsistent t × (count (is_claimable t job_id) t.items ≡ 0)

module _ {W : Type 0} (source : ImportLookupSource W) (job_id sheet_id : Text) where
  -- One turn of the loop.
  module _ (fuel : ℕ) (s : Store) (w : W) where
    run_refused :
        (problem : WorkspaceStoreError)
        → claim_next_pending_import_job_item s job_id (source.clock w) ≡ err problem
        → run_items source (suc fuel) s w job_id sheet_id
          ≡ some (err (ImportEngineError.store problem))
    unfolding run_items
    run_refused problem h = rw (h, run_items) refl

    run_ended :
        (t : Store)
        → claim_next_pending_import_job_item s job_id (source.clock w) ≡ ok (none, t)
        → run_items source (suc fuel) s w job_id sheet_id ≡ some (ended source t w job_id)
    unfolding run_items
    run_ended t h = rw (h, run_items) refl

    run_failed :
        (item : ImportJobItem) (t : Store) (problem : ImportEngineError)
        → claim_next_pending_import_job_item s job_id (source.clock w) ≡ ok (some item, t)
        → run_turn source t w job_id sheet_id item ≡ err problem
        → run_items source (suc fuel) s w job_id sheet_id ≡ some (err problem)
    unfolding run_items
    run_failed item t problem h ran = rw (h, run_items) (rw ran refl)

    run_on :
        (item : ImportJobItem) (t u : Store) (later : W)
        → claim_next_pending_import_job_item s job_id (source.clock w) ≡ ok (some item, t)
        → run_turn source t w job_id sheet_id item ≡ ok (u, later)
        → run_items source (suc fuel) s w job_id sheet_id
          ≡ run_items source fuel u later job_id sheet_id
    unfolding run_items
    run_on item t u later h ran = rw (h, run_items) (rw ran refl)

  ended-IsFinished :
      (t : Store) (w : W)
      → IsConsistent t × (count (is_claimable t job_id) t.items ≡ 0)
      → IsFinished job_id (some (ended source t w job_id))
  ended-IsFinished t w h = elim (Option-cases (get_import_job_summary t job_id)) [
    | inl missing ↦ rw (missing, IsFinished) tt
    | inr (job, found) ↦ rw (found, IsFinished) h
  ]

  run_items-IsFinished :
      (fuel : ℕ) (s : Store) (w : W) (limit : ℕ)
      → IsConsistent s
      → job_size s job_id ≤ limit
      → max_import_job_items ≤ limit
      → waiting s job_id + (limit - job_size s job_id) < fuel
      → IsFinished job_id (run_items source fuel s w job_id sheet_id)
  run_items-IsFinished zero s w limit c size capped enough = absurd (omega (arith, enough))
  run_items-IsFinished (suc fuel) s w limit c size capped enough =
      let now = source.clock w in
      elim (Outcome-cases (claim_next_pending_import_job_item s job_id now)) [
        | inl (problem, h) ↦ subst (IsFinished job_id) (sym (run_refused fuel s w problem h)) tt
        | inr ((none, t), h) ↦
            let (same, left) = claim-nothing s job_id now t h c in
            subst (IsFinished job_id) (sym (run_ended fuel s w t h)) (
              ended-IsFinished t w (
                subst (λ u. IsConsistent u × (count (is_claimable u job_id) u.items ≡ 0)) (sym same)
                  (c, left)))
        | inr ((some item, t), h) ↦
            let (fewer, sized) = claim-waiting s job_id now item t h c in
            elim (Outcome-cases (run_turn source t w job_id sheet_id item)) [
              | inl (problem, ran) ↦
                  subst (IsFinished job_id) (sym (run_failed fuel s w item t problem h ran)) tt
              | inr ((u, later), ran) ↦
                  let turn = run_turn-IsTurn source job_id sheet_id t w item u later ran in
                  let within : job_size u job_id ≤ limit = elim turn.bound [
                    | inl less ↦ omega (arith, less, sized, size)
                    | inr below ↦ omega (arith, below, capped)
                  ] in
                  subst (IsFinished job_id) (sym (run_on fuel s w item t u later h ran)) (
                    run_items-IsFinished fuel u later limit
                      (turn.consistent (claim-IsConsistent s job_id now (some item) t h c)) within
                      capped (omega (arith, enough, fewer, sized, turn.balance, within, size)))
            ]
      ]

waiting_bound : (s : Store) (job_id : Text) → waiting s job_id ≤ job_size s job_id
unfolding sum_by
waiting_bound s job_id = part s.items
  where
    part :
        (items : List ImportJobItem)
        → count (waits_in job_id) items ≤ count (item_of_job job_id) items
    part [] = omega arith
    part (x ∷ items) = ground (arith, part items)

module _ {W : Type 0} (source : ImportLookupSource W) (fuel : ℕ) (s : Store) (w : W)
    (job_id : Text) where
  run_missing :
      get_import_job_summary s job_id ≡ none
      → run_job source fuel s w job_id ≡ some (err (ImportEngineError.missing_job job_id))
  unfolding run_job
  run_missing h = rw (h, run_job) refl

  run_found :
      (job : ImportJob)
      → get_import_job_summary s job_id ≡ some job
      → run_job source fuel s w job_id ≡ run_items source fuel s w job_id job.sheet_id
  unfolding run_job
  run_found job h = rw (h, run_job) refl

-- A run of a job ends, whatever the service answers, after at most as many turns as the job may have
-- items: 100,000, or as many as it has if they are more. It ends with an error, or with no item of
-- the job left to claim, and the counts and status of every job are those of its items.
pub run_job-IsFinished :
    {W : Type 0} (source : ImportLookupSource W) (fuel : ℕ) (s : Store) (w : W) (job_id : Text)
    → IsConsistent s
    → max (job_size s job_id) max_import_job_items < fuel
    → IsFinished job_id (run_job source fuel s w job_id)
run_job-IsFinished source fuel s w job_id c enough =
    elim (Option-cases (get_import_job_summary s job_id)) [
      | inl missing ↦
          subst (IsFinished job_id) (sym (run_missing source fuel s w job_id missing)) tt
      | inr (job, found) ↦
          subst (IsFinished job_id) (sym (run_found source fuel s w job_id job found)) (
            run_items-IsFinished source job_id job.sheet_id fuel s w
              (max (job_size s job_id) max_import_job_items) c (omega arith) (omega arith)
              (omega (arith, enough, waiting_bound s job_id)))
    ]
