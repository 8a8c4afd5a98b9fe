-- ===== src/Core/Upstream/Tests.antt =====
-- upstream.rs: an id, and a lookup that is retried.
use ship_flow_tauri.Prelude.{
  ℕ, zero, suc, Text, bytes, text_beq, true, false, none, some, [], ◌∷◌, ◌≡◌, refl,
}
use ship_flow_tauri.Prelude.Table.{any}
use ship_flow_tauri.Prelude.Trim.{trim}
use ship_flow_tauri.Prelude.Outcome.{ok, err}
use ship_flow_tauri.Core.Model.{LookupKind}
use ship_flow_tauri.Core.Upstream.{Response, Answer, normalize_lookup_id, fetch_lookup_response}
use ship_flow_tauri.Core.Upstream.Ids.{IsUpstreamId, normalize_lookup_id-IsUpstreamId}
use ship_flow_tauri.Core.Upstream.Retries.{IsFetched, fetch_lookup_response-IsFetched}

normalizes : normalize_lookup_id (bytes " p26-1.3 ") LookupKind.track ≡ ok (bytes "P26-1.3")
unfolding normalize_lookup_id text_beq any trim
normalizes = refl

normalize_lookup_id-IsUpstreamId_example :
    IsUpstreamId (bytes "P26-1.3")
    × (normalize_lookup_id (bytes "P26-1.3") LookupKind.bag ≡ ok (bytes "P26-1.3"))
normalize_lookup_id-IsUpstreamId_example =
    normalize_lookup_id-IsUpstreamId (bytes " p26-1.3 ") LookupKind.track LookupKind.bag
      (bytes "P26-1.3") normalizes

abbrev busy : Response
busy = record { status = 429; retry_after = some (bytes " 45"); body = [] }

abbrev found : Response
found = record { status = 200; retry_after = none; body = bytes "ok" }

-- The service is busy, then the connection fails, then there is an answer.
abbrev answers : ℕ → Answer
answers zero = ok found
answers (suc zero) = ok busy
answers (suc (suc zero)) = err (record { is_connect = true; is_timeout = false; details = [] })
answers (suc (suc (suc n))) = ok found

abbrev constant_hash : Text → ℕ → ℕ
constant_hash request_url attempt = 7

fetches : fetch_lookup_response constant_hash answers (bytes "u") ≡ (ok found, 30000 ∷ 507 ∷ [])
unfolding fetch_lookup_response trim
fetches = refl

fetch_lookup_response-IsFetched_example :
    IsFetched answers 1
      (fetch_lookup_response constant_hash answers (bytes "u")).0
      (fetch_lookup_response constant_hash answers (bytes "u")).1
fetch_lookup_response-IsFetched_example =
    fetch_lookup_response-IsFetched constant_hash answers (bytes "u")
