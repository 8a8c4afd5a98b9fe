-- ===== src/Core/Upstream.antt =====
-- crates/shipflow-core/src/upstream.rs: the ids that are sent upstream, and the retries of a lookup.
-- The n-th request of a lookup is answered by the n-th of any answers; the hash behind the jitter is
-- a parameter.
pub mod Ids
pub mod Retries
mod Tests
use ship_flow_tauri.Prelude.{
  ℕ, zero, suc, ◌+◌, ◌-◌, ◌*◌, ◌/◌, ◌%◌, ◌^◌, min, max, Text, bytes, Bool, true, false, Option,
  none, some, List, [], ◌∷◌, ◌++◌, map, ◌==◌, nat_eq, text_eq, not, ◌&&◌, ◌||◌, leb, ltb, length,
  if◌then◌else◌, u64_max, saturating_add, saturating_mul,
}
use ship_flow_tauri.Prelude.Trim.{trim}
use ship_flow_tauri.Prelude.Table.{any}
use ship_flow_tauri.Prelude.Outcome.{Outcome, ok, err, ◌>>◌, guard}
use ship_flow_tauri.Core.Model.{LookupKind, TrackingError}

abbrev pub max_lookup_id_length : ℕ
max_lookup_id_length = 64

abbrev pub label : LookupKind → Text
label LookupKind.track = bytes "Shipment ID"
label LookupKind.bag = bytes "Bag ID"
label LookupKind.manifest = bytes "Manifest ID"

abbrev pub is_digit : ℕ → Bool
is_digit c = leb 48 c && leb c 57

abbrev pub is_upper : ℕ → Bool
is_upper c = leb 65 c && leb c 90

abbrev pub is_lower : ℕ → Bool
is_lower c = leb 97 c && leb c 122

-- A letter, a digit, a hyphen or a period. The bytes of other characters fail it.
abbrev pub is_id_char : ℕ → Bool
is_id_char c = is_digit c || (is_upper c || (is_lower c || (c == 45 || c == 46)))

abbrev pub ascii_upper : ℕ → ℕ
ascii_upper c = if is_lower c then c - 32 else c

unfoldable pub normalize_lookup_id : Text → LookupKind → Outcome TrackingError Text
unfolding trim
normalize_lookup_id input kind = do
  let trimmed = trim input
  guard (not (trimmed == [])) (TrackingError.bad_request (label kind ++ (bytes " is required.")))
  guard (leb (length trimmed) max_lookup_id_length)
      (TrackingError.bad_request (label kind ++ (bytes " exceeds 64 characters.")))
  guard (not (any (λ c. not (is_id_char c)) trimmed)) (
      TrackingError.bad_request
        (label kind ++ (bytes " may only contain letters, numbers, hyphens, and periods.")))
  ok (map ascii_upper trimmed)

abbrev pub tracking_max_attempts : ℕ
tracking_max_attempts = 3

abbrev pub tracking_retry_base_delay_ms : ℕ
tracking_retry_base_delay_ms = 250

abbrev pub tracking_retry_max_delay_ms : ℕ
tracking_retry_max_delay_ms = 10000

abbrev pub tracking_retry_after_max_secs : ℕ
tracking_retry_after_max_secs = 30

-- The header Retry-After as text, where it has one that is text.
pub record Response : Type 0 where
  pub status : ℕ
  pub retry_after : Option Text
  pub body : Text

pub record RequestError : Type 0 where
  pub is_connect : Bool
  pub is_timeout : Bool
  pub details : Text

abbrev pub Answer : Type 0
Answer = Outcome RequestError Response

abbrev pub is_success : ℕ → Bool
is_success status = leb 200 status && ltb status 300

unfoldable pub is_retryable_status : ℕ → Bool
is_retryable_status status = status == 429 || leb 500 status && ltb status 600

-- str::parse::<u64>
unfoldable pub digits_value : ℕ → Text → Option ℕ
digits_value value [] = some value
digits_value value (c ∷ cs) =
    let next = value * 10 + (c - 48) in
    let rest = digits_value next cs in if is_digit c && leb next u64_max then rest else none

unfoldable pub parse_u64 : Text → Option ℕ
unfolding digits_value
parse_u64 [] = none
parse_u64 (c ∷ []) = digits_value 0 (c ∷ [])
parse_u64 (c ∷ d ∷ cs) = if c == 43 then digits_value 0 (d ∷ cs) else digits_value 0 (c ∷ d ∷ cs)

-- Delays are in milliseconds.
abbrev pub seconds_delay : Option ℕ → Option ℕ
seconds_delay none = none
seconds_delay (some seconds) = some (1000 * min seconds tracking_retry_after_max_secs)

unfoldable pub retry_after_delay : Option Text → Option ℕ
unfolding parse_u64 trim
retry_after_delay none = none
retry_after_delay (some value) = seconds_delay (parse_u64 (trim value))

unfoldable pub retry_backoff_delay : (Text → ℕ → ℕ) → Text → ℕ → ℕ
retry_backoff_delay hash request_url attempt =
    let exponent = min (attempt - 1) 10 in
    let base_delay =
      min (saturating_mul tracking_retry_base_delay_ms (2 ^ exponent))
        tracking_retry_max_delay_ms in
    let jitter = hash request_url attempt % max (base_delay / 2) 1 in
    min (saturating_add base_delay jitter) tracking_retry_max_delay_ms

abbrev pub failure_message : RequestError → Text
failure_message error =
    if error.is_connect
    then (bytes
        "POS tracking upstream connection failed. Check DNS or internet access from ShipFlow Service. Details: ")
      ++ error.details
    else if error.is_timeout
    then (bytes "POS tracking upstream timed out while waiting for a response. Details: ")
      ++ error.details
    else (bytes "POS tracking upstream request failed. Details: ") ++ error.details

abbrev pub delay_or : Option ℕ → ℕ → ℕ
delay_or none backoff = backoff
delay_or (some delay) backoff = delay

-- What ends the loop at an attempt, or the delay before the next one.
pub data Turn : Type 0 where
  done : Outcome TrackingError Response → Turn
  again : ℕ → Turn

unfoldable pub turn_of : (Text → ℕ → ℕ) → Text → ℕ → Answer → Turn
unfolding is_retryable_status retry_after_delay retry_backoff_delay
turn_of hash request_url attempt (ok response) =
    if is_success response.status
    then done (ok response)
    else if attempt == tracking_max_attempts || not (is_retryable_status response.status)
    then done (ok response)
    else again (
        delay_or (retry_after_delay response.retry_after)
          (retry_backoff_delay hash request_url attempt))
turn_of hash request_url attempt (err error) =
    if attempt == tracking_max_attempts
    then done (err (TrackingError.upstream (failure_message error)))
    else again (retry_backoff_delay hash request_url attempt)

-- The loop over the attempts that are left. The delays are given back with the result.
unfoldable pub attempt_lookup :
    (Text → ℕ → ℕ) → (ℕ → Answer) → Text → ℕ → ℕ → Outcome TrackingError Response × List ℕ
unfolding turn_of
attempt_lookup hash answers request_url zero attempt =
    (err (TrackingError.upstream (bytes "Lookup request exhausted retries.")), [])
attempt_lookup hash answers request_url (suc left) attempt =
    elim (turn_of hash request_url attempt (answers attempt)) [
      | done result ↦ (result, [])
      | again delay ↦
          let (result, delays) = attempt_lookup hash answers request_url left (suc attempt) in
          (result, delay ∷ delays)
    ]

unfoldable pub fetch_lookup_response :
    (Text → ℕ → ℕ) → (ℕ → Answer) → Text → Outcome TrackingError Response × List ℕ
unfolding attempt_lookup
fetch_lookup_response hash answers request_url =
    attempt_lookup hash answers request_url tracking_max_attempts 1
