-- ===== src/ImportEngine/Runs/Turns.antt =====
-- import_engine.rs: what one item of a run does to the store.
use ship_flow_tauri.Prelude.{
  ◌∙◌, ℕ, suc, ◌+◌, ◌≤◌, Text, Bool, Option, some, none, List, [], ◌∷◌, ◌≡◌, ◌⊎◌, refl, ap, subst,
  text_eq, leb, count, Bool-cases, inl, inr, arith, map, length, saturating_add, leb→le, nat_eq,
}
use ship_flow_tauri.Prelude.Outcome.{Outcome, ok, err, >>=-eq-ok, or_fail->>=-eq-ok, ok-injective}
use ship_flow_tauri.Storage.Tables.{Store, Result, ImportJobItem, ImportSourceItemKind}
use ship_flow_tauri.Storage.Jobs.{item_of_job, get_import_job_summary}
use ship_flow_tauri.Storage.Rows.{UpsertSheetRowInput}
use ship_flow_tauri.Storage.Jobs.Lifecycle.{next_import_job_item_position}
use ship_flow_tauri.Storage.Jobs.Counts.{IsConsistent}
use ship_flow_tauri.Storage.Jobs.Attempts.{
  start_import_attempt, finish_import_attempt, finish_manifest_import_attempt_with_items,
  finish_bag_import_attempt_with_sheet_rows,
}
use ship_flow_tauri.Storage.Jobs.Attempts.Counted.{
  start_import_attempt-IsConsistent, finish_import_attempt-IsConsistent,
}
use ship_flow_tauri.Storage.Jobs.Attempts.Results.{
  finish_manifest-IsConsistent, finish_bag-IsConsistent,
}
use ship_flow_tauri.ImportEngine.{
  ImportEngineResult, ImportLookupFailure, BagResponse, ManifestResponse, max_import_job_items,
}
use ship_flow_tauri.ImportEngine.Sources.{extract_bag_tracking_ids, extract_manifest_bag_ids}
use ship_flow_tauri.ImportEngine.Plans.{plan_unique_sheet_rows}
use ship_flow_tauri.ImportEngine.Runs.{
  ImportLookupSource, from_store, store_raw_response_blob, bag_items, job_size, add_bags,
  settle_manifest, settle_bag, run_manifest_item, run_bag_item, run_by_kind, forward, attempt_id_of,
  start_input, run_job_item, run_turn, failed_attempt, succeeded_attempt,
}
use ship_flow_tauri.ImportEngine.Runs.Waiting.{
  waiting, IsKept, start-IsKept, finish-IsKept, finish_bag-IsKept,
}
use ship_flow_tauri.ImportEngine.Runs.Grown.{finish_manifest-IsGrown}

-- What an operation of one turn does: counts stay true, the items that wait are those that waited
-- and new ones, and new ones come only within the limit.
pub record IsTurn (job_id : Text) (s t : Store) : Type 0 where
  pub consistent : IsConsistent s → IsConsistent t
  pub balance : waiting t job_id + job_size s job_id ≡ waiting s job_id + job_size t job_id
  pub bound : (job_size t job_id ≤ job_size s job_id) ⊎ (job_size t job_id ≤ max_import_job_items)

kept-IsTurn :
    (job_id : Text) (s t : Store)
    → (IsConsistent s → IsConsistent t)
    → IsKept job_id s t
    → IsTurn job_id s t
kept-IsTurn job_id s t consistent k = record {
  consistent = consistent;
  balance = omega (arith, k.waits, k.size);
  bound = inl (omega (arith, k.size));
}

trans-IsTurn :
    (job_id : Text) (s t u : Store) → IsTurn job_id s t → IsTurn job_id t u → IsTurn job_id s u
trans-IsTurn job_id s t u st tu = record {
  consistent = λ c. tu.consistent (st.consistent c);
  balance = omega (arith, st.balance, tu.balance);
  bound = elim tu.bound [
    | inr limit ↦ inr limit
    | inl less ↦ elim st.bound [
      | inl below ↦ inl (omega (arith, less, below))
      | inr limit ↦ inr (omega (arith, less, limit))
    ]
  ];
}

pub from_store-ok : {A : Type 0} (r : Result A) (a : A) → from_store r ≡ ok a → r ≡ ok a
from_store-ok (ok value) a h = ap ok (ok-injective h)
from_store-ok (err problem) a h = absurd (ground (arith, h))

stored-IsTurn :
    (job_id : Text) (s : Store) (written : Option (Outcome Text Text))
    (stored : Option Text × Store)
    → store_raw_response_blob s written ≡ ok stored
    → IsTurn job_id s stored.1 × (stored.1.items ≡ s.items)
unfolding store_raw_response_blob
stored-IsTurn job_id s none stored h =
    let e : (none, s) ≡ stored = ok-injective h in
    subst (λ r. IsTurn job_id s r.1 × (r.1.items ≡ s.items)) e
      (record { consistent = λ c. c; balance = omega arith; bound = inl (omega arith) }, refl)
stored-IsTurn job_id s (some (err message)) stored h = absurd (ground (arith, h))
stored-IsTurn job_id s (some (ok blob_id)) stored h =
    subst (λ r. IsTurn job_id s r.1 × (r.1.items ≡ s.items)) (ok-injective h)
      (
        record {
          consistent = λ c. record { unique = c.unique; counted = c.counted };
          balance = omega arith;
          bound = inl (omega arith);
        },
        refl,
      )

length-bag_items :
    (job_id : Text) (ids : List Text) (position : ℕ)
    → length (bag_items job_id position ids) ≡ length ids
unfolding bag_items
length-bag_items job_id [] position = refl
length-bag_items job_id (id ∷ ids) position = ap suc (length-bag_items job_id ids _)

finish-IsTurn :
    (job_id : Text) (s : Store) (attempt_id message : Text) (now : ℕ) (done : Bool) (t : Store)
    → from_store (finish_import_attempt s (failed_attempt attempt_id message) now) ≡ ok (done, t)
    → IsTurn job_id s t
finish-IsTurn job_id s attempt_id message now done t h =
    let input = failed_attempt attempt_id message in
    let ran = from_store-ok (finish_import_attempt s input now) (done, t) h in
    kept-IsTurn job_id s t (finish_import_attempt-IsConsistent s input now done t ran)
      (finish-IsKept job_id s input now done t ran)

add_bags-IsTurn :
    (job_id : Text) (s : Store) (attempt_id : Text) (written : Option (Outcome Text Text)) (now : ℕ)
    (bag_ids : List Text) (done : Bool) (t : Store)
    → add_bags s job_id attempt_id written now bag_ids ≡ ok (done, t)
    → job_size s job_id + length bag_ids ≤ max_import_job_items
    → IsTurn job_id s t
unfolding add_bags
add_bags-IsTurn job_id s attempt_id written now bag_ids done t h room =
    let (stored, recorded, h1) = >>=-eq-ok (store_raw_response_blob s written) _ h in
    let (before, items) = stored-IsTurn job_id s written stored recorded in
    let size : job_size stored.1 job_id ≡ job_size s job_id =
      ap (count (item_of_job job_id)) items in
    let position = next_import_job_item_position stored.1.items job_id in
    let inputs = bag_items job_id position bag_ids in
    let input = succeeded_attempt attempt_id bag_ids stored.0 in
    let ran =
      from_store-ok (finish_manifest_import_attempt_with_items stored.1 input inputs now) (done, t)
        h1 in
    let grown = finish_manifest-IsGrown job_id stored.1 input inputs now done t ran in
    let few = length-bag_items job_id bag_ids position in
    trans-IsTurn job_id s stored.1 t before (record {
      consistent = finish_manifest-IsConsistent stored.1 input inputs now done t ran;
      balance = grown.balance;
      bound = inr (omega (arith, grown.size, few, size, room));
    })

settle_manifest-IsTurn :
    (job_id : Text) (s : Store) (attempt_id : Text) (written : Option (Outcome Text Text)) (now : ℕ)
    (answer : Outcome ImportLookupFailure ManifestResponse) (done : Bool) (t : Store)
    → settle_manifest s job_id attempt_id written now answer ≡ ok (done, t)
    → IsTurn job_id s t
unfolding settle_manifest
settle_manifest-IsTurn job_id s attempt_id written now (err failure) done t h =
    finish-IsTurn job_id s attempt_id failure.message now done t h
settle_manifest-IsTurn job_id s attempt_id written now (ok response) done t h =
    let bag_ids = extract_manifest_bag_ids response in
    let (job, _, h1) = or_fail->>=-eq-ok (get_import_job_summary s job_id) _ h in
    let total = saturating_add (job_size s job_id) (length bag_ids) in
    elim (Bool-cases (leb total max_import_job_items)) [
      | inl fits ↦
          let le = leb→le total max_import_job_items fits in
          add_bags-IsTurn job_id s attempt_id written now bag_ids done t (rw fits at h1)
            (omega (arith, le))
      | inr full ↦ finish-IsTurn job_id s attempt_id _ now done t (rw full at h1)
    ]

settle_bag-IsTurn :
    (job_id : Text) (s : Store) (sheet_id : Text) (item : ImportJobItem) (attempt_id : Text)
    (written : Option (Outcome Text Text)) (generation : Text → Text) (now : ℕ)
    (answer : Outcome ImportLookupFailure BagResponse) (done : Bool) (t : Store)
    → settle_bag s sheet_id item attempt_id written generation now answer ≡ ok (done, t)
    → IsTurn job_id s t
unfolding settle_bag
settle_bag-IsTurn job_id s sheet_id item attempt_id written generation now (err failure) done t h =
    finish-IsTurn job_id s attempt_id failure.message now done t h
settle_bag-IsTurn job_id s sheet_id item attempt_id written generation now (ok response) done t h =
    let ids = extract_bag_tracking_ids response in
    let (stored, recorded, h1) = >>=-eq-ok (store_raw_response_blob s written) _ h in
    let (before, _) = stored-IsTurn job_id s written stored recorded in
    let (plan, _, h2) = >>=-eq-ok (plan_unique_sheet_rows stored.1 sheet_id ids) _ h1 in
    let input = succeeded_attempt attempt_id ids stored.0 in
    let rows = map (λ (row : UpsertSheetRowInput). (row, generation row.row_id)) plan.rows in
    let ran =
      from_store-ok
        (finish_bag_import_attempt_with_sheet_rows stored.1 input item.item_id rows
          plan.sheet_row_ids now)
        (done, t) h2 in
    trans-IsTurn job_id s stored.1 t before (
      kept-IsTurn job_id stored.1 t
        (finish_bag-IsConsistent stored.1 input item.item_id rows plan.sheet_row_ids now done t ran)
        (finish_bag-IsKept job_id stored.1 input item.item_id rows plan.sheet_row_ids now done t
          ran))

forward-ok :
    {W : Type 0} (r : ImportEngineResult (Bool × Store) × W) (t : Store) (later : W)
    → forward r ≡ ok (t, later)
    → (done : Bool) × (r.0 ≡ ok (done, t))
forward-ok {W = W} (ok (done, s), w) t later h =
    let e : (s, w) ≡ (t, later) = ok-injective h in (done, ap (λ (p : Store × W). ok (done, p.0)) e)
forward-ok (err problem, w) t later h = absurd (ground (arith, h))

module _ {W : Type 0} (source : ImportLookupSource W) (job_id sheet_id : Text) where
  run_by_kind-IsTurn :
      (kind : ImportSourceItemKind) (s : Store) (w : W) (item : ImportJobItem) (t : Store)
      (later : W)
      → forward (run_by_kind source s w job_id sheet_id item kind) ≡ ok (t, later)
      → IsTurn job_id s t
  unfolding run_by_kind run_manifest_item run_bag_item
  run_by_kind-IsTurn ImportSourceItemKind.manifest s w item t later h =
      let (done, h1) =
        forward-ok (run_manifest_item source s w job_id item (attempt_id_of item)) t later h in
      settle_manifest-IsTurn job_id s _ _ _ (source.fetch_manifest w item.source_item_id).0 done t
        h1
  run_by_kind-IsTurn ImportSourceItemKind.bag s w item t later h =
      let (done, h1) =
        forward-ok (run_bag_item source s w sheet_id item (attempt_id_of item)) t later h in
      settle_bag-IsTurn job_id s sheet_id item _ _ _ _ (source.fetch_bag w item.source_item_id).0
        done t h1
  run_by_kind-IsTurn ImportSourceItemKind.manifest_bag s w item t later h =
      let (done, h1) =
        forward-ok (run_bag_item source s w sheet_id item (attempt_id_of item)) t later h in
      settle_bag-IsTurn job_id s sheet_id item _ _ _ _ (source.fetch_bag w item.source_item_id).0
        done t h1

  pub run_job_item-IsTurn :
      (s : Store) (w : W) (item : ImportJobItem) (t : Store) (later : W)
      → run_job_item source s w job_id sheet_id item ≡ ok (t, later)
      → IsTurn job_id s t
  unfolding run_job_item
  run_job_item-IsTurn s w item t later h =
      let input = start_input item in
      let now = source.clock w in
      let (begun, first, h1) = >>=-eq-ok (from_store (start_import_attempt s input now)) _ h in
      let started = from_store-ok (start_import_attempt s input now) begun first in
      trans-IsTurn job_id s begun.1 t
        (kept-IsTurn job_id s begun.1
          (start_import_attempt-IsConsistent s input now begun.0 begun.1 started)
          (start-IsKept job_id s input now begun.0 begun.1 started))
        (run_by_kind-IsTurn item.source_item_kind begun.1 w item t later h1)

  pub run_turn-IsTurn :
      (s : Store) (w : W) (item : ImportJobItem) (t : Store) (later : W)
      → run_turn source s w job_id sheet_id item ≡ ok (t, later)
      → IsTurn job_id s t
  unfolding run_turn
  run_turn-IsTurn s w item t later h =
      let (ran, first, h1) = >>=-eq-ok (run_job_item source s w job_id sheet_id item) _ h in
      let (job, _, h2) = or_fail->>=-eq-ok (get_import_job_summary ran.0 job_id) _ h1 in
      run_job_item-IsTurn s w item t later (first ∙ h2)
