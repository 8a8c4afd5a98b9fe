-- ===== src/Tracking/Answers/Returned.antt =====
-- tracking.rs: the rows that the writes of an answer give back.
use ship_flow_tauri.Prelude.{
  Text, Bool, true, false, Option, none, some, List, ◌≡◌, refl, sym, ap, ◌∙◌, not, ◌||◌, subst, inl,
  inr, text_eq, text_beq_iff, Bool-cases, if◌then◌else◌, arith,
}
use ship_flow_tauri.Prelude.Table.{
  find_where, any, update_where, find_where-holds, find_where-update_where_before,
}
use ship_flow_tauri.Prelude.Outcome.{ok, err, ◌>>=◌, >>=-eq-ok, ok-injective, guard->>-eq-ok}
use ship_flow_tauri.Storage.Tables.{constraint, Store, SheetRow, TrackingRecord, Result}
use ship_flow_tauri.Storage.Rows.Isolation.{row_has_id}
use ship_flow_tauri.Storage.Rows.Lookups.{
  AttachTrackingRecordToSheetRowInput, is_expected, attached, with_row_status, attach_where,
  record_exists, upsert_tracking_record, upsert_tracking_record_and_attach_if_row_matches,
  update_sheet_row_status_if_lookup_matches,
}
use ship_flow_tauri.Tracking.Rows.{
  TrackingLookupFailure, TrackingEngineResult, TrackResponse, BlobWriter, failed_input,
  loaded_input, keep_current, is_current, from_store, from_json, record_with_blob, read_back,
  record_response, store_raw_response_blob, store_successful_tracking_response,
  store_failed_tracking_lookup,
}
use ship_flow_tauri.Tracking.Answers.Counts.{is_ended, IsEnded}

-- What is given back for a row is that row, loaded or failed.
abbrev pub IsReturned : SheetRow → TrackingEngineResult (Option SheetRow) → Type 0
IsReturned row stored =
    (new : SheetRow)
    → ◌≡◌ {A = TrackingEngineResult (Option SheetRow)} stored (ok (some new))
    → (new.row_id ≡ row.row_id) × IsEnded new

abbrev expects : SheetRow → SheetRow → Bool
expects row = is_expected row.row_id row.lookup_tracking_id row.row_generation

kept_row :
    (row : SheetRow) (o : Option SheetRow) (new : SheetRow)
    → keep_current row o ≡ some new
    → (o ≡ some new) × (is_current row new ≡ true)
kept_row row none new h = ground (arith, h)
kept_row row (some current) new h = elim (Bool-cases (is_current row current)) [
  | inl same ↦
      let e : current ≡ new = ground (arith, h, same) in
      (ground (arith, e), subst (λ x. is_current row x ≡ true) e same)
  | inr differs ↦ ground (arith, h, differs)
]

updated-IsReturned :
    (t : Store) (row : SheetRow) (rows : List SheetRow) (f : SheetRow → SheetRow)
    → t.sheet_rows ≡ update_where (expects row) f rows
    → ((x : SheetRow) → (f x).row_id ≡ x.row_id)
    → ((x : SheetRow) → is_ended (f x) ≡ true)
    → IsReturned row (ok (keep_current row (find_where (row_has_id row.row_id) t.sheet_rows)))
updated-IsReturned t row rows f same_rows keeps ends new given =
    let e : keep_current row (find_where (row_has_id row.row_id) t.sheet_rows) ≡ some new = cc in
    let (found, current) = kept_row row _ new e in
    let found_new : find_where (row_has_id row.row_id) (update_where (expects row) f rows)
        ≡ some new =
      rw (sym same_rows) found in
    let (old, before, same) =
      find_where-update_where_before (row_has_id row.row_id) (expects row) f rows new
        (λ x. rw (keeps x) refl) found_new in
    let named = find_where-holds (row_has_id row.row_id) rows old before in
    let id = find_where-holds (row_has_id row.row_id) t.sheet_rows new found in
    (
      (text_beq_iff new.row_id row.row_id).0 id,
      elim (Bool-cases (expects row old)) [
        | inl hit ↦ let e1 : new ≡ f old = ground (arith, same, hit) in rw e1 (ends old)
        | inr miss ↦
            let e1 : new ≡ old = ground (arith, same, miss) in
            let current_old = subst (λ x. is_current row x ≡ true) e1 current in
            ground (arith, miss, named, current_old)
      ],
    )

pub store_failed-IsReturned :
    (s : Store) (row : SheetRow) (failure : TrackingLookupFailure)
    → IsReturned row (store_failed_tracking_lookup s row failure).0
unfolding store_failed_tracking_lookup update_sheet_row_status_if_lookup_matches read_back
store_failed-IsReturned s row failure = by_update (any (expects row) s.sheet_rows)
  where
    t : Store
    t = record s {
      sheet_rows =
          update_where (expects row) (with_row_status (failed_input row failure)) s.sheet_rows;
    }

    by_update : (updated : Bool) → IsReturned row (read_back s row (ok (t, updated))).0
    by_update true =
        updated-IsReturned t row s.sheet_rows (with_row_status (failed_input row failure)) refl
          (λ x. refl) (λ x. refl)
    by_update false = λ new given. cc

attach_where_rows :
    (p : SheetRow → Bool) (s : Store) (attachment : AttachTrackingRecordToSheetRowInput) (t : Store)
    → attach_where p s attachment ≡ ok t
    → t.sheet_rows ≡ update_where p (attached attachment) s.sheet_rows
unfolding attach_where
attach_where_rows p s attachment t h =
    let stored = not (any p s.sheet_rows) || record_exists s attachment.tracking_record_id in
    let (_, h1) = guard->>-eq-ok stored constraint h in
    sym (ap (λ (x : Store). x.sheet_rows) (ok-injective h1))

from_store-ok {ℓ} :
    {A : Type ℓ} (stored : Result A) {a : A} → from_store stored ≡ ok a → stored ≡ ok a
from_store-ok (ok value) h = cc
from_store-ok (err problem) h = cc

attached_rows :
    (s : Store) (input : TrackingRecord) (attachment : AttachTrackingRecordToSheetRowInput)
    (lookup_tracking_id generation : Text) (u : Store)
    → upsert_tracking_record_and_attach_if_row_matches s input attachment lookup_tracking_id
        generation
      ≡ ok (u, true)
    → (rows : List SheetRow) × (u.sheet_rows
        ≡ update_where
            (is_expected attachment.row_id lookup_tracking_id generation)
            (attached attachment)
            rows)
unfolding upsert_tracking_record_and_attach_if_row_matches attach_where
attached_rows s input attachment lookup_tracking_id generation u h =
    let expected = is_expected attachment.row_id lookup_tracking_id generation in
    elim (Bool-cases (any expected s.sheet_rows)) [
      | inr missed ↦ ground (arith, missed, h)
      | inl there ↦
          let (t, _, h1) =
            >>=-eq-ok {B = Store × Bool} (upsert_tracking_record s input)
              (λ t. attach_where expected t attachment >>= λ v.
                ok (if any expected t.sheet_rows then (v, true) else (s, false)))
              {b = (u, true)} (ground (arith, there, h)) in
          let (v, attach, h2) = >>=-eq-ok (attach_where expected t attachment) _ h1 in
          let e : v ≡ u = ground (arith, h2) in
          (
            t.sheet_rows,
            ap (λ (x : Store). x.sheet_rows) (sym e)
                ∙ attach_where_rows expected t attachment v attach,
          )
    ]

record_response_rows :
    (s : Store) (row : SheetRow) (response : TrackResponse) (raw_blob_id : Option Text) (u : Store)
    → record_response s row response raw_blob_id ≡ ok (u, true)
    → (rows : List SheetRow) × (u.sheet_rows
        ≡ update_where (expects row) (attached (loaded_input row)) rows)
unfolding record_response
record_response_rows s row response raw_blob_id u h =
    let (_, _, h1) = >>=-eq-ok (from_json response.status_json) _ h in
    let (_, _, h2) = >>=-eq-ok (from_json response.detail_json) _ h1 in
    attached_rows s _ (loaded_input row) row.lookup_tracking_id row.row_generation u
      (from_store-ok _ h2)

recorded-IsReturned :
    (t : Store) (row : SheetRow) (recorded : TrackingEngineResult (Store × Bool))
    → ((u : Store)
        → recorded ≡ ok (u, true)
        → (rows : List SheetRow) × (u.sheet_rows
            ≡ update_where (expects row) (attached (loaded_input row)) rows))
    → IsReturned row (read_back t row recorded).0
unfolding read_back
recorded-IsReturned t row (err problem) stored = λ new given. cc
recorded-IsReturned t row (ok (u, false)) stored = λ new given. cc
recorded-IsReturned t row (ok (u, true)) stored =
    let (rows, same) = stored u refl in
    updated-IsReturned u row rows (attached (loaded_input row)) same (λ x. refl) (λ x. refl)

with_blob-IsReturned :
    (s : Store) (row : SheetRow) (response : TrackResponse)
    (stored : TrackingEngineResult (Option Text × Store))
    → IsReturned row (record_with_blob s row response stored).0
unfolding record_with_blob
with_blob-IsReturned s row response (err problem) = λ new given. cc
with_blob-IsReturned s row response (ok (raw_blob_id, t)) =
    recorded-IsReturned t row (record_response t row response raw_blob_id)
      (λ u h. record_response_rows t row response raw_blob_id u h)

pub store_successful-IsReturned :
    (write : BlobWriter) (s : Store) (row : SheetRow) (response : TrackResponse)
    → IsReturned row (store_successful_tracking_response write s row response).0
unfolding store_successful_tracking_response
store_successful-IsReturned write s row response =
    with_blob-IsReturned s row response (store_raw_response_blob s (write response))
