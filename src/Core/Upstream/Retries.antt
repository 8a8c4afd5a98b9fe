-- ===== src/Core/Upstream/Retries.antt =====
-- upstream.rs: the retries of a lookup.
use ship_flow_tauri.Prelude.{
  sym, subst, ◌==◌, nat_eq, ℕ, zero, suc, ◌+◌, ◌≤◌, Text, Bool, true, false, Option, none, some,
  List, [], ◌∷◌, ◌≡◌, refl, not, ◌&&◌, ◌||◌, All, length, ltb, Bool-cases, inl, inr, arith,
}
use ship_flow_tauri.Prelude.Trim.{trim}
use ship_flow_tauri.Prelude.Outcome.{Outcome, ok, err}
use ship_flow_tauri.Core.Model.{TrackingError}
use ship_flow_tauri.Core.Upstream.{
  Response, Answer, Turn, done, again, is_success, is_retryable_status, failure_message,
  retry_after_delay, retry_backoff_delay, seconds_delay, delay_or, parse_u64, turn_of,
  attempt_lookup, fetch_lookup_response, tracking_max_attempts,
}

-- An answer after which a lookup is tried again while attempts are left.
abbrev pub retries : Answer → Bool
retries (ok response) = not (is_success response.status) && is_retryable_status response.status
retries (err error) = true

-- What a lookup gives back for its last answer.
abbrev pub outcome_of : Answer → Outcome TrackingError Response
outcome_of (ok response) = ok response
outcome_of (err error) = err (TrackingError.upstream (failure_message error))

-- Whether the answers to `n` attempts from one on are all to be retried.
abbrev pub all_retry : (ℕ → Answer) → ℕ → ℕ → Bool
all_retry answers attempt zero = true
all_retry answers attempt (suc n) = retries (answers attempt) && all_retry answers (suc attempt) n

-- The result of a lookup whose attempts start at one, with the delays between them.
pub record IsFetched (answers : ℕ → Answer) (attempt : ℕ) (result : Outcome TrackingError Response)
    (delays : List ℕ) : Type 0 where
  pub few : attempt + length delays ≤ tracking_max_attempts
  pub bounded : All (λ (delay : ℕ). delay ≤ 30000) delays
  pub retried : all_retry answers attempt (length delays) ≡ true
  pub last : result ≡ outcome_of (answers (attempt + length delays))
  pub final :
      (retries (answers (attempt + length delays))
        && ltb (attempt + length delays) tracking_max_attempts)
      ≡ false

backoff_bounded :
    (hash : Text → ℕ → ℕ) (request_url : Text) (attempt : ℕ)
    → retry_backoff_delay hash request_url attempt ≤ 30000
unfolding retry_backoff_delay
backoff_bounded hash request_url attempt = omega arith

retry_after_bounded :
    (header : Option Text) (backoff : ℕ)
    → backoff ≤ 30000
    → delay_or (retry_after_delay header) backoff ≤ 30000
unfolding retry_after_delay
retry_after_bounded none backoff h = h
retry_after_bounded (some value) backoff h = by_seconds (parse_u64 (trim value))
  where
    by_seconds : (seconds : Option ℕ) → delay_or (seconds_delay seconds) backoff ≤ 30000
    by_seconds none = h
    by_seconds (some seconds) = omega arith

-- The two ways that a turn ends.
data IsTurn (attempt : ℕ) (answer : Answer) : Turn → Type 0 where
  ends :
      (retries answer && ltb attempt tracking_max_attempts) ≡ false
      → IsTurn attempt answer (done (outcome_of answer))
  goes_on :
      (delay : ℕ)
      → (retries answer && ltb attempt tracking_max_attempts) ≡ true
      → delay ≤ 30000
      → IsTurn attempt answer (again delay)

turn_of-IsTurn :
    (hash : Text → ℕ → ℕ) (request_url : Text) (attempt : ℕ) (answer : Answer)
    → attempt ≤ tracking_max_attempts
    → IsTurn attempt answer (turn_of hash request_url attempt answer)
unfolding turn_of
turn_of-IsTurn hash request_url attempt (ok response) few =
    elim (Bool-cases (is_success response.status)) [
      | inl success ↦ rw success (ends (ground (arith, success)))
      | inr failure ↦
          rw failure
            (elim (Bool-cases
              (attempt == tracking_max_attempts || not (is_retryable_status response.status))) [
                | inl last ↦ rw last (ends (ground (arith, last)))
                | inr more ↦ rw more (
                    goes_on _ (ground (arith, failure, more, few)) (
                      retry_after_bounded response.retry_after _
                        (backoff_bounded hash request_url attempt)))
              ])
    ]
turn_of-IsTurn hash request_url attempt (err error) few =
    elim (Bool-cases (attempt == tracking_max_attempts)) [
      | inl last ↦ rw last (ends (ground (arith, last)))
      | inr more ↦
          rw more (goes_on _ (ground (arith, more, few)) (backoff_bounded hash request_url attempt))
    ]

-- The result of a turn, from that of the attempts after it.
abbrev after_turn :
    Outcome TrackingError Response × List ℕ → Turn → Outcome TrackingError Response × List ℕ
after_turn rest (done result) = (result, [])
after_turn rest (again delay) = (rest.0, delay ∷ rest.1)

after_turn-IsFetched :
    (answers : ℕ → Answer) (attempt : ℕ) (rest : Outcome TrackingError Response × List ℕ)
    (turn : Turn)
    → IsTurn attempt (answers attempt) turn
    → attempt ≤ tracking_max_attempts
    → (ltb attempt tracking_max_attempts ≡ true → IsFetched answers (suc attempt) rest.0 rest.1)
    → IsFetched answers attempt (after_turn rest turn).0 (after_turn rest turn).1
after_turn-IsFetched answers attempt rest _ (ends stops) few later =
    let e : attempt ≡ attempt + 0 = omega arith in
    record {
      few = omega (arith, few);
      bounded = tt;
      retried = refl;
      last = subst (λ n. outcome_of (answers attempt) ≡ outcome_of (answers n)) e refl;
      final = subst (λ n. (retries (answers n) && ltb n tracking_max_attempts) ≡ false) e stops;
    }
after_turn-IsFetched answers attempt rest _ (goes_on delay continues short) few later =
    let fetched = later (ground (arith, continues)) in
    let n = length rest.1 in
    let e : suc attempt + n ≡ attempt + suc n = omega arith in
    record {
      few = omega (arith, fetched.few);
      bounded = (short, fetched.bounded);
      retried = ground (arith, continues, fetched.retried);
      last = subst (λ k. rest.0 ≡ outcome_of (answers k)) e fetched.last;
      final =
          subst (λ k. (retries (answers k) && ltb k tracking_max_attempts) ≡ false) e fetched.final;
    }

attempt_step :
    (hash : Text → ℕ → ℕ) (answers : ℕ → Answer) (request_url : Text) (left attempt : ℕ)
    → attempt_lookup hash answers request_url (suc left) attempt
      ≡ after_turn
          (attempt_lookup hash answers request_url left (suc attempt))
          (turn_of hash request_url attempt (answers attempt))
unfolding attempt_lookup
attempt_step hash answers request_url left attempt =
    by_turn (turn_of hash request_url attempt (answers attempt))
  where
    rest : Outcome TrackingError Response × List ℕ
    rest = attempt_lookup hash answers request_url left (suc attempt)

    by_turn :
        (turn : Turn)
        → elim turn as (λ _. Outcome TrackingError Response × List ℕ) [
          | done result ↦ (result, [])
          | again delay ↦ (rest.0, delay ∷ rest.1)
        ]
          ≡ after_turn rest turn
    by_turn (done result) = refl
    by_turn (again delay) = refl

attempt_lookup-IsFetched :
    (hash : Text → ℕ → ℕ) (answers : ℕ → Answer) (request_url : Text) (left attempt : ℕ)
    → attempt + left ≡ tracking_max_attempts
    → IsFetched answers attempt
        (attempt_lookup hash answers request_url (suc left) attempt).0
        (attempt_lookup hash answers request_url (suc left) attempt).1
attempt_lookup-IsFetched hash answers request_url zero attempt sum =
    subst (λ (r : Outcome TrackingError Response × List ℕ). IsFetched answers attempt r.0 r.1)
      (sym (attempt_step hash answers request_url zero attempt))
      (after_turn-IsFetched answers attempt _ _
        (turn_of-IsTurn hash request_url attempt (answers attempt) (omega (arith, sum)))
        (omega (arith, sum)) (λ less. ground (arith, sum, less)))
attempt_lookup-IsFetched hash answers request_url (suc left) attempt sum =
    subst (λ (r : Outcome TrackingError Response × List ℕ). IsFetched answers attempt r.0 r.1)
      (sym (attempt_step hash answers request_url (suc left) attempt))
      (after_turn-IsFetched answers attempt _ _
        (turn_of-IsTurn hash request_url attempt (answers attempt) (omega (arith, sum)))
        (omega (arith, sum))
        (λ less.
          attempt_lookup-IsFetched hash answers request_url left (suc attempt)
            (omega (arith, sum))))

-- A lookup makes one to three requests. All but the last are to be retried, the last is not or is the
-- third, the result is that of the last, and no delay is above 30 seconds.
pub fetch_lookup_response-IsFetched :
    (hash : Text → ℕ → ℕ) (answers : ℕ → Answer) (request_url : Text)
    → IsFetched answers 1
        (fetch_lookup_response hash answers request_url).0
        (fetch_lookup_response hash answers request_url).1
unfolding fetch_lookup_response
fetch_lookup_response-IsFetched hash answers request_url =
    attempt_lookup-IsFetched hash answers request_url 2 1 refl
