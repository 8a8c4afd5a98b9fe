-- ===== src/Backpressure.antt =====
-- crates/shipflow-service-runtime/src/upstream_backpressure.rs: a limit on concurrent lookups, with a
-- bounded queue whose length is an atomic counter. Each task takes its turns in any order; a turn is
-- one atomic operation of `acquire`, or of the drop of its permit. The semaphore is tokio's.
pub mod Turns
pub mod Bounds
mod Tests
use ship_flow_tauri.Prelude.{
  ℕ, zero, suc, ◌+◌, Bool, true, false, Option, none, some, List, [], ◌∷◌, ◌++◌, ◌≡◌, ◌==◌, nat_eq,
  leb, if◌then◌else◌, saturating_sub, count,
}

-- `Ok(permit)` and the errors of `try_acquire_owned`.
pub data TryAcquire (S : Type 0) : Type 0 where
  acquired : S → TryAcquire S
  no_permits closed : TryAcquire S

-- A poll of the future of `acquire_owned`: a permit, or a place in the line, or that it is closed.
pub data PollAcquire (S : Type 0) : Type 0 where
  granted : S → PollAcquire S
  pending : ℕ → S → PollAcquire S
  shut : PollAcquire S

-- tokio's `Semaphore`, which is fair: a permit that is released goes to the first task in the line,
-- and is assigned to it, no longer available, until that task is polled again or leaves. So a permit
-- is available, assigned, or held. A poll has the place of an earlier poll, if there was one; a task
-- that leaves the line gives a permit that was assigned to it to the next one, or back.
pub record Semaphore (S : Type 0) : Type 0 where
  pub available_permits : S → ℕ
  pub assigned : S → ℕ
  pub try_acquire : S → TryAcquire S
  pub poll_acquire : Option ℕ → S → PollAcquire S
  pub release : S → S
  pub leave : ℕ → S → S
  pub total-acquired :
      (s t : S)
      → try_acquire s ≡ acquired t
      → available_permits s + assigned s ≡ suc (available_permits t + assigned t)
  pub total-granted :
      (place : Option ℕ) (s t : S)
      → poll_acquire place s ≡ granted t
      → available_permits s + assigned s ≡ suc (available_permits t + assigned t)
  pub total-pending :
      (place : Option ℕ) (s : S) (next : ℕ) (t : S)
      → poll_acquire place s ≡ pending next t
      → available_permits s + assigned s ≡ available_permits t + assigned t
  pub total-release :
      (s : S)
      → available_permits (release s) + assigned (release s)
        ≡ suc (available_permits s + assigned s)
  pub total-leave :
      (place : ℕ) (s : S)
      → available_permits (leave place s) + assigned (leave place s)
        ≡ available_permits s + assigned s

pub data UpstreamBackpressureError : Type 0 where
  queue_full : ℕ → UpstreamBackpressureError
  limiter_unavailable timeout : UpstreamBackpressureError

-- Where a task stands: before `try_acquire_owned`; before the first load of the counter; in the loop
-- of `increment_waiter` with the value it read; waiting for a permit with its `QueueWaiter`, from the
-- first poll on with its place in the semaphore's line; with the
-- `QueueWaiter` being dropped, before the load and in the loop of `decrement_waiter`; holding a
-- permit; and at its end.
pub data Outcome : Type 0 where
  permit : Outcome
  failed : UpstreamBackpressureError → Outcome

pub data Phase : Type 0 where
  arriving queueing holding released : Phase
  waiting : Option ℕ → Phase
  spinning : ℕ → Phase
  dropping : Outcome → Phase
  leaving : Outcome → ℕ → Phase
  refused : UpstreamBackpressureError → Phase

abbrev pub returned : Outcome → Phase
returned permit = holding
returned (failed e) = refused e

pub record UpstreamBackpressure (S : Type 0) : Type 0 where
  pub limiter : S
  pub waiters : ℕ
  pub max_concurrent : ℕ
  pub max_queued : ℕ

pub record UpstreamBackpressureSnapshot : Type 0 where
  pub active : ℕ
  pub available : ℕ
  pub queued : ℕ
  pub max_concurrent : ℕ
  pub max_queued : ℕ

module _ {S : Type 0} (sem : Semaphore S) where
  unfoldable pub snapshot : UpstreamBackpressure S → UpstreamBackpressureSnapshot
  snapshot b = record {
    active = saturating_sub b.max_concurrent (sem.available_permits b.limiter);
    available = sem.available_permits b.limiter;
    queued = b.waiters;
    max_concurrent = b.max_concurrent;
    max_queued = b.max_queued;
  }

  try_now : TryAcquire S → UpstreamBackpressure S → Phase × UpstreamBackpressure S
  try_now (acquired t) b = (holding, record b { limiter = t })
  try_now no_permits b = (queueing, b)
  try_now closed b = (refused limiter_unavailable, b)

  -- One pass of the loop of `increment_waiter`: a compare-and-swap that expects `current`.
  unfoldable pub increment_waiter : ℕ → UpstreamBackpressure S → Phase × UpstreamBackpressure S
  increment_waiter current b =
      if leb b.max_queued current
      then (refused (queue_full current), b)
      else if b.waiters == current
      then (waiting none, record b { waiters = current + 1 })
      else (spinning b.waiters, b)

  -- The future of `acquire_owned` is dropped.
  left_line : Option ℕ → UpstreamBackpressure S → UpstreamBackpressure S
  left_line none b = b
  left_line (some place) b = record b { limiter = sem.leave place b.limiter }

  poll : Option ℕ → PollAcquire S → UpstreamBackpressure S → Phase × UpstreamBackpressure S
  unfolding left_line
  poll place (granted t) b = (dropping permit, record b { limiter = t })
  poll place (pending next t) b = (waiting (some next), record b { limiter = t })
  poll place shut b = (dropping (failed limiter_unavailable), left_line place b)

  -- One pass of the loop of `decrement_waiter`.
  unfoldable pub decrement_waiter :
      Outcome → ℕ → UpstreamBackpressure S → Phase × UpstreamBackpressure S
  decrement_waiter outcome zero b = (returned outcome, b)
  decrement_waiter outcome (suc next) b =
      if b.waiters == suc next
      then (returned outcome, record b { waiters = next })
      else (leaving outcome b.waiters, b)

  -- The next atomic operation of a task. `expired` says that its wait ends, by the timeout or because
  -- the caller drops the future.
  unfoldable pub turn : Phase → Bool → UpstreamBackpressure S → Phase × UpstreamBackpressure S
  unfolding try_now poll left_line increment_waiter decrement_waiter
  turn arriving expired b = try_now (sem.try_acquire b.limiter) b
  turn queueing expired b = (spinning b.waiters, b)
  turn (spinning current) expired b = increment_waiter current b
  turn (waiting place) expired b =
      if expired
      then (dropping (failed timeout), left_line place b)
      else poll place (sem.poll_acquire place b.limiter) b
  turn (dropping outcome) expired b = (leaving outcome b.waiters, b)
  turn (leaving outcome current) expired b = decrement_waiter outcome current b
  turn holding expired b = (released, record b { limiter = sem.release b.limiter })
  turn released expired b = (released, b)
  turn (refused e) expired b = (refused e, b)

  -- The tasks and what they share, from a fresh limiter on: tasks come, and each takes its turns.
  pub data Reach (b : UpstreamBackpressure S) : List Phase → UpstreamBackpressure S → Type 0 where
    start : Reach b [] b
    arrive :
        {tasks : List Phase} {c : UpstreamBackpressure S}
        → Reach b tasks c
        → Reach b (arriving ∷ tasks) c
    move :
        {c : UpstreamBackpressure S} (before after : List Phase) (p : Phase) (expired : Bool)
        → Reach b (before ++ (p ∷ after)) c
        → Reach b (before ++ ((turn p expired c).0 ∷ after)) (turn p expired c).1

unfoldable pub with_limits : {S : Type 0} → (ℕ → S) → ℕ → ℕ → UpstreamBackpressure S
with_limits new max_concurrent max_queued = record {
  limiter = new max_concurrent;
  waiters = 0;
  max_concurrent = max_concurrent;
  max_queued = max_queued;
}

-- The limits of each use. The timeouts are when `expired` may hold.
unfoldable pub default_limits : {S : Type 0} → (ℕ → S) → UpstreamBackpressure S
unfolding with_limits
default_limits new = with_limits new 30 300

unfoldable pub http_ingress_default : {S : Type 0} → (ℕ → S) → UpstreamBackpressure S
unfolding with_limits
http_ingress_default new = with_limits new 128 512

unfoldable pub public_default : {S : Type 0} → (ℕ → S) → UpstreamBackpressure S
unfolding with_limits
public_default new = with_limits new 24 240

unfoldable pub contact_default : {S : Type 0} → (ℕ → S) → UpstreamBackpressure S
unfolding with_limits
contact_default new = with_limits new 15 150
