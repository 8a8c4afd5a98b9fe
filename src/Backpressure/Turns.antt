-- ===== src/Backpressure/Turns.antt =====
-- upstream_backpressure.rs: what one turn of a task does to the permits and the queue.
use ship_flow_tauri.Prelude.{
  ℕ, zero, suc, ◌+◌, ◌≤◌, ◌<◌, Bool, true, false, Option, none, some, ◌≡◌, refl, sym, ◌==◌, nat_eq,
  leb, arith, Bool-cases, inl, inr,
}
use ship_flow_tauri.Backpressure.{
  TryAcquire, acquired, no_permits, closed, PollAcquire, granted, pending, shut, Semaphore,
  UpstreamBackpressureError, limiter_unavailable, timeout, left_line, Outcome, permit, failed,
  Phase, arriving, queueing, waiting, holding, released, spinning, dropping, leaving, refused,
  returned, UpstreamBackpressure, turn, increment_waiter, decrement_waiter, try_now, poll,
}

-- Whether a task has a permit.
abbrev pub permits_of : Phase → ℕ
permits_of holding = 1
permits_of (dropping permit) = 1
permits_of (leaving permit current) = 1
permits_of _ = 0

-- Whether a task has a `QueueWaiter`.
abbrev pub waiters_of : Phase → ℕ
waiters_of (waiting place) = 1
waiters_of (dropping outcome) = 1
waiters_of (leaving outcome current) = 1
waiters_of _ = 0

-- A value that `decrement_waiter` read is not 0: the task itself was counted.
abbrev pub IsCounted : Phase → Type 0
IsCounted (leaving outcome current) = 0 < current
IsCounted _ = Unit

returned_counts :
    (outcome : Outcome) (current : ℕ)
    → (permits_of (returned outcome) ≡ permits_of (leaving outcome current))
      × (waiters_of (returned outcome) ≡ 0)
      × IsCounted (returned outcome)
returned_counts permit current = (refl, refl, tt)
returned_counts (failed e) current = (refl, refl, tt)

leaving_counts :
    (outcome : Outcome) (current next : ℕ)
    → permits_of (leaving outcome next) ≡ permits_of (leaving outcome current)
leaving_counts permit current next = refl
leaving_counts (failed e) current next = refl

module _ {S : Type 0} (sem : Semaphore S) where
  -- What a turn does to the counts, with the other tasks' counts given.
  pub record IsFair (p : Phase) (b : UpstreamBackpressure S) (q : Phase)
      (c : UpstreamBackpressure S) : Type 0 where
    pub permits :
        sem.available_permits c.limiter + sem.assigned c.limiter + permits_of q
        ≡ sem.available_permits b.limiter + sem.assigned b.limiter + permits_of p
    pub waiters : c.waiters + waiters_of p ≡ b.waiters + waiters_of q
    pub queue : c.waiters ≤ b.max_queued
    pub same_queue : c.max_queued ≡ b.max_queued
    pub same_limit : c.max_concurrent ≡ b.max_concurrent
    pub seen : IsCounted q

  -- A turn that changes nothing shared.
  still :
      (p q : Phase) (b : UpstreamBackpressure S)
      → b.waiters ≤ b.max_queued
      → permits_of q ≡ permits_of p
      → waiters_of q ≡ waiters_of p
      → IsCounted q
      → IsFair p b q b
  still p q b full same same' seen = record {
    permits = omega (arith, same);
    waiters = omega (arith, same');
    queue = full;
    same_queue = refl;
    same_limit = refl;
    seen = seen;
  }

  -- A turn that takes a permit.
  taken :
      (p q : Phase) (b : UpstreamBackpressure S) (t : S)
      → b.waiters ≤ b.max_queued
      → sem.available_permits b.limiter + sem.assigned b.limiter
        ≡ suc (sem.available_permits t + sem.assigned t)
      → permits_of q ≡ permits_of p + 1
      → waiters_of q ≡ waiters_of p
      → IsCounted q
      → IsFair p b q (record b { limiter = t })
  taken p q b t full e more same seen = record {
    permits = omega (arith, e, more);
    waiters = omega (arith, same);
    queue = full;
    same_queue = refl;
    same_limit = refl;
    seen = seen;
  }

  -- A turn after which as many permits are free.
  passed :
      (p q : Phase) (b : UpstreamBackpressure S) (t : S)
      → b.waiters ≤ b.max_queued
      → sem.available_permits b.limiter + sem.assigned b.limiter
        ≡ sem.available_permits t + sem.assigned t
      → permits_of q ≡ permits_of p
      → waiters_of q ≡ waiters_of p
      → IsCounted q
      → IsFair p b q (record b { limiter = t })
  passed p q b t full e more same seen = record {
    permits = omega (arith, e, more);
    waiters = omega (arith, same);
    queue = full;
    same_queue = refl;
    same_limit = refl;
    seen = seen;
  }

  try_now-IsFair :
      (b : UpstreamBackpressure S) (r : TryAcquire S)
      → b.waiters ≤ b.max_queued
      → sem.try_acquire b.limiter ≡ r
      → IsFair arriving b (try_now sem r b).0 (try_now sem r b).1
  unfolding try_now
  try_now-IsFair b (acquired t) full e =
      taken arriving holding b t full (sem.total-acquired b.limiter t e) refl refl tt
  try_now-IsFair b no_permits full e = still arriving queueing b full refl refl tt
  try_now-IsFair b closed full e = still arriving (refused _) b full refl refl tt

  left_line-IsFair :
      (b : UpstreamBackpressure S) (place : Option ℕ) (e : UpstreamBackpressureError)
      → b.waiters ≤ b.max_queued
      → IsFair (waiting place) b (dropping (failed e)) (left_line sem place b)
  unfolding left_line
  left_line-IsFair b none e full = still (waiting none) (dropping (failed e)) b full refl refl tt
  left_line-IsFair b (some place) e full =
      passed (waiting (some place)) (dropping (failed e)) b (sem.leave place b.limiter) full
        (sym (sem.total-leave place b.limiter)) refl refl tt

  poll-IsFair :
      (b : UpstreamBackpressure S) (place : Option ℕ) (r : PollAcquire S)
      → b.waiters ≤ b.max_queued
      → sem.poll_acquire place b.limiter ≡ r
      → IsFair (waiting place) b (poll sem place r b).0 (poll sem place r b).1
  unfolding poll
  poll-IsFair b place (granted t) full e =
      taken (waiting place) (dropping permit) b t full (sem.total-granted place b.limiter t e) refl
        refl tt
  poll-IsFair b place (pending next t) full e =
      passed (waiting place) (waiting (some next)) b t full
        (sem.total-pending place b.limiter next t e) refl refl tt
  poll-IsFair b place shut full e = left_line-IsFair b place limiter_unavailable full

  increment_waiter-IsFair :
      (current : ℕ) (b : UpstreamBackpressure S)
      → b.waiters ≤ b.max_queued
      → IsFair
          (spinning current)
          b
          (increment_waiter sem current b).0
          (increment_waiter sem current b).1
  unfolding increment_waiter
  increment_waiter-IsFair current b full = elim (Bool-cases (leb b.max_queued current)) [
    | inl over ↦ rw over (still (spinning current) (refused _) b full refl refl tt)
    | inr room ↦ elim (Bool-cases (b.waiters == current)) [
      | inl won ↦
          rw (room, won)
            (record {
              permits = refl;
              waiters = ground (arith, won);
              queue = ground (arith, room);
              same_queue = refl;
              same_limit = refl;
              seen = tt;
            })
      | inr lost ↦ rw (room, lost) (still (spinning current) (spinning _) b full refl refl tt)
    ]
  ]

  decrement_waiter-IsFair :
      (outcome : Outcome) (current : ℕ) (b : UpstreamBackpressure S)
      → b.waiters ≤ b.max_queued
      → 1 ≤ b.waiters
      → 0 < current
      → IsFair
          (leaving outcome current)
          b
          (decrement_waiter sem outcome current b).0
          (decrement_waiter sem outcome current b).1
  unfolding decrement_waiter
  decrement_waiter-IsFair outcome zero b full mine seen = absurd (omega (arith, seen))
  decrement_waiter-IsFair outcome (suc next) b full mine seen =
      elim (Bool-cases (b.waiters == suc next)) [
        | inl won ↦ rw won (record {
          permits = omega (arith, (returned_counts outcome (suc next)).0);
          waiters = ground (arith, won, (returned_counts outcome (suc next)).1);
          queue = ground (arith, won, full);
          same_queue = refl;
          same_limit = refl;
          seen = (returned_counts outcome (suc next)).2;
        })
        | inr lost ↦ rw lost (
            still (leaving outcome (suc next)) (leaving outcome b.waiters) b full
              (leaving_counts outcome (suc next) b.waiters) refl mine)
      ]

  pub turn-IsFair :
      (p : Phase) (expired : Bool) (b : UpstreamBackpressure S)
      → b.waiters ≤ b.max_queued
      → waiters_of p ≤ b.waiters
      → IsCounted p
      → IsFair p b (turn sem p expired b).0 (turn sem p expired b).1
  unfolding turn
  turn-IsFair arriving expired b full mine seen = try_now-IsFair b _ full refl
  turn-IsFair queueing expired b full mine seen = still queueing (spinning _) b full refl refl tt
  turn-IsFair (spinning current) expired b full mine seen = increment_waiter-IsFair current b full
  turn-IsFair (waiting place) true b full mine seen = left_line-IsFair b place timeout full
  turn-IsFair (waiting place) false b full mine seen = poll-IsFair b place _ full refl
  turn-IsFair (dropping permit) expired b full mine seen =
      still (dropping permit) (leaving permit b.waiters) b full refl refl (omega (arith, mine))
  turn-IsFair (dropping (failed e)) expired b full mine seen =
      still (dropping (failed e)) (leaving (failed e) b.waiters) b full refl refl
        (omega (arith, mine))
  turn-IsFair (leaving outcome current) expired b full mine seen =
      decrement_waiter-IsFair outcome current b full mine seen
  turn-IsFair holding expired b full mine seen = record {
    permits = omega (arith, sem.total-release b.limiter);
    waiters = refl;
    queue = full;
    same_queue = refl;
    same_limit = refl;
    seen = tt;
  }
  turn-IsFair released expired b full mine seen = still released released b full refl refl tt
  turn-IsFair (refused e) expired b full mine seen =
      still (refused e) (refused e) b full refl refl tt
