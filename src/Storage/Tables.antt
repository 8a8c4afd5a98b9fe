-- ===== src/Storage/Tables.antt =====
-- storage.rs and imports.rs, jobs.rs: the rows of the tables, their statuses and the store's errors.
-- The columns `created_at`, `updated_at` and `next_retry_at`, which nothing reads, and the analytics
-- cache are left out.
pub use ship_flow_tauri.Prelude.Outcome.{
  Outcome, ok, err, ◌>>=◌, ◌>>◌, guard, or_fail, >>=-eq-ok, or_fail->>=-eq-ok, guard->>-eq-ok,
}
use ship_flow_tauri.Prelude.Table.{contains}
use ship_flow_tauri.Prelude.{
  ℕ, Text, Bool, true, false, Option, List, text_eq, nat_eq, Equality, nat_beq, ◌≡◌, ◌↔◌, arith,
}

pub data ImportKind : Type 0 where
  bag manifest : ImportKind

pub data ImportMode : Type 0 where
  replace append : ImportMode

pub data ImportJobStatus : Type 0 where
  pending running completed failed cancelled : ImportJobStatus

pub data ImportJobItemStatus : Type 0 where
  pending running succeeded failed cancelled : ImportJobItemStatus

pub data ImportSourceItemKind : Type 0 where
  bag manifest manifest_bag : ImportSourceItemKind

pub data ImportAttemptStatus : Type 0 where
  running succeeded failed cancelled interrupted : ImportAttemptStatus

pub data SheetRowStatus : Type 0 where
  empty pending loading loaded failed stale : SheetRowStatus

abbrev pub item_status_code : ImportJobItemStatus → ℕ
item_status_code ImportJobItemStatus.pending = 0
item_status_code ImportJobItemStatus.running = 1
item_status_code ImportJobItemStatus.succeeded = 2
item_status_code ImportJobItemStatus.failed = 3
item_status_code ImportJobItemStatus.cancelled = 4

pub item_status_iff :
    (s t : ImportJobItemStatus)
    → (nat_beq (item_status_code s) (item_status_code t) ≡ true) ↔ (s ≡ t)
item_status_iff s t = ground arith

instance abbrev pub item_status_eq : Equality ImportJobItemStatus
item_status_eq = record {
  equal = λ s t. nat_beq (item_status_code s) (item_status_code t);
  equal_iff = item_status_iff;
}

abbrev pub source_kind_code : ImportSourceItemKind → ℕ
source_kind_code ImportSourceItemKind.bag = 0
source_kind_code ImportSourceItemKind.manifest = 1
source_kind_code ImportSourceItemKind.manifest_bag = 2

pub source_kind_iff :
    (s t : ImportSourceItemKind)
    → (nat_beq (source_kind_code s) (source_kind_code t) ≡ true) ↔ (s ≡ t)
source_kind_iff s t = ground arith

instance abbrev pub source_kind_eq : Equality ImportSourceItemKind
source_kind_eq = record {
  equal = λ s t. nat_beq (source_kind_code s) (source_kind_code t);
  equal_iff = source_kind_iff;
}

abbrev pub is_cancelled : ImportJobStatus → Bool
is_cancelled ImportJobStatus.cancelled = true
is_cancelled _ = false

abbrev pub is_running_attempt : ImportAttemptStatus → Bool
is_running_attempt ImportAttemptStatus.running = true
is_running_attempt _ = false

unfoldable pub item_status_for_attempt_status : ImportAttemptStatus → ImportJobItemStatus
item_status_for_attempt_status ImportAttemptStatus.running = ImportJobItemStatus.running
item_status_for_attempt_status ImportAttemptStatus.succeeded = ImportJobItemStatus.succeeded
item_status_for_attempt_status ImportAttemptStatus.failed = ImportJobItemStatus.failed
item_status_for_attempt_status ImportAttemptStatus.interrupted = ImportJobItemStatus.failed
item_status_for_attempt_status ImportAttemptStatus.cancelled = ImportJobItemStatus.cancelled

pub record ImportJob : Type 0 where
  pub job_id : Text
  pub sheet_id : Text
  pub kind : ImportKind
  pub mode : ImportMode
  pub status : ImportJobStatus
  pub total_count : ℕ
  pub success_count : ℕ
  pub failed_count : ℕ
  pub pending_count : ℕ
  pub completed_at : Option ℕ
  pub cancelled_at : Option ℕ

pub record ImportJobItem : Type 0 where
  pub item_id : Text
  pub job_id : Text
  pub source_item_id : Text
  pub source_item_kind : ImportSourceItemKind
  pub position : ℕ
  pub status : ImportJobItemStatus
  pub tracking_ids : List Text
  pub sheet_row_ids : List Text
  pub error_message : Option Text
  pub attempt_count : ℕ

pub record ImportAttempt : Type 0 where
  pub attempt_id : Text
  pub job_item_id : Text
  pub attempt_number : ℕ
  pub status : ImportAttemptStatus
  pub error_message : Option Text
  pub raw_blob_id : Option Text
  pub started_at : ℕ
  pub finished_at : Option ℕ

pub record SheetRow : Type 0 where
  pub row_id : Text
  pub sheet_id : Text
  pub position : ℕ
  pub display_tracking_id : Text
  pub lookup_tracking_id : Text
  pub row_generation : Text
  pub tracking_record_id : Option Text
  pub row_status : SheetRowStatus
  pub error_message : Option Text

-- A JSON document is its text.
pub record TrackingRecord : Type 0 where
  pub record_id : Text
  pub display_tracking_id : Text
  pub lookup_tracking_id : Text
  pub normalized_status : Option Text
  pub status_json : Text
  pub detail_json : Text
  pub history_json : Text
  pub raw_blob_id : Option Text
  pub source_url : Text

-- The sheets and blobs that foreign keys refer to are known by their ids.
pub record Store : Type 0 where
  pub sheet_ids : List Text
  pub blob_ids : List Text
  pub sheet_rows : List SheetRow
  pub records : List TrackingRecord
  pub jobs : List ImportJob
  pub items : List ImportJobItem
  pub attempts : List ImportAttempt

-- The foreign key of a response body.
unfoldable pub blob_exists : Store → Option Text → Bool
blob_exists s Option.none = true
blob_exists s (Option.some id) = contains id s.blob_ids

-- `constraint` is the error of a statement that breaks a key or a foreign key, `out_of_range` that of
-- a column whose value does not fit its Rust type. `endless` is no error of the source: it stands for
-- a loop that never ends.
pub data WorkspaceStoreError : Type 0 where
  constraint out_of_range endless : WorkspaceStoreError
  missing_import_job : Text → WorkspaceStoreError
  row_ownership_conflict : Text → Text → Text → WorkspaceStoreError
  invalid_value : Text → Text → WorkspaceStoreError

abbrev pub Result {ℓ} : Type ℓ → Type ℓ
Result A = Outcome WorkspaceStoreError A

-- The store after an operation: that of a commit, or the old one.
abbrev pub after : Store → Result Store → Store
after s (ok t) = t
after s (err e) = s
