-- ===== src/Core/Model.antt =====
-- crates/shipflow-core/src/model.rs: lookup kinds and tracking errors.
use ship_flow_tauri.Prelude.{Text}

pub data LookupKind : Type 0 where
  track bag manifest : LookupKind

pub data TrackingError : Type 0 where
  bad_request not_found rate_limited service_unavailable upstream : Text → TrackingError
