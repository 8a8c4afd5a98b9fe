-- ===== src/Backpressure/Bounds.antt =====
-- upstream_backpressure.rs: the limit, the queue's bound and the snapshot, under any interleaving.
use ship_flow_tauri.Prelude.{
  ℕ, ◌+◌, ◌≤◌, List, [], ◌∷◌, ◌++◌, ◌≡◌, refl, nat_eq, sum_by, sum_by-append, sum_by_cons,
  sum_by_nil, arith, All,
}
use ship_flow_tauri.Backpressure.{
  Semaphore, Phase, arriving, UpstreamBackpressure, snapshot, turn, Reach, start, arrive, move,
  with_limits,
}
use ship_flow_tauri.Backpressure.Turns.{permits_of, waiters_of, IsCounted, turn-IsFair}

module _ (P : Phase → Type 0) where
  All-middle : (before after : List Phase) (p : Phase) → All P (before ++ (p ∷ after)) → P p
  All-middle [] after p a = a.0
  All-middle (x ∷ xs) after p a = All-middle xs after p a.1

  All-replaced :
      (before after : List Phase) (p q : Phase)
      → All P (before ++ (p ∷ after))
      → P q
      → All P (before ++ (q ∷ after))
  All-replaced [] after p q a new = (new, a.1)
  All-replaced (x ∷ xs) after p q a new = (a.0, All-replaced xs after p q a.1 new)

sum_by-swap :
    (w : Phase → ℕ) (before after : List Phase) (p : Phase)
    → sum_by w (before ++ (p ∷ after)) ≡ sum_by w before + w p + sum_by w after
sum_by-swap w before after p =
    omega (arith, sum_by-append w before (p ∷ after), sum_by_cons w p after)

module _ {S : Type 0} (sem : Semaphore S) where
  pub record IsBounded (limit : ℕ) (tasks : List Phase) (b : UpstreamBackpressure S) : Type 0 where
    pub permits :
        sem.available_permits b.limiter + sem.assigned b.limiter + sum_by permits_of tasks ≡ limit
    pub waiters : b.waiters ≡ sum_by waiters_of tasks
    pub queue : b.waiters ≤ b.max_queued
    pub limits : b.max_concurrent ≡ limit
    pub seen : All IsCounted tasks

  -- Whatever turns the tasks take, the permits that are available, those assigned in the line and
  -- those that tasks hold make up the limit, the counter is the number of tasks in the queue, and the queue is within its bound.
  pub Reach-IsBounded :
      (new : ℕ → S) (max_concurrent max_queued : ℕ)
      → sem.available_permits (new max_concurrent) ≡ max_concurrent
      → sem.assigned (new max_concurrent) ≡ 0
      → (tasks : List Phase) (c : UpstreamBackpressure S)
      → Reach sem (with_limits new max_concurrent max_queued) tasks c
      → IsBounded max_concurrent tasks c
  unfolding with_limits
  Reach-IsBounded new max_concurrent max_queued fresh idle _ _ start = record {
    permits = omega (arith, fresh, idle, sum_by_nil permits_of);
    waiters = omega (arith, sum_by_nil waiters_of);
    queue = omega arith;
    limits = refl;
    seen = tt;
  }
  Reach-IsBounded new max_concurrent max_queued fresh idle _ c (arrive {tasks} r) =
      let known = Reach-IsBounded new max_concurrent max_queued fresh idle tasks c r in
      record {
        permits = omega (arith, known.permits, sum_by_cons permits_of arriving tasks);
        waiters = omega (arith, known.waiters, sum_by_cons waiters_of arriving tasks);
        queue = known.queue;
        limits = known.limits;
        seen = (tt, known.seen);
      }
  Reach-IsBounded new max_concurrent max_queued fresh idle _ _ (move {c} before after p expired r) =
      let known =
        Reach-IsBounded new max_concurrent max_queued fresh idle (before ++ (p ∷ after)) c r in
      let fair =
        turn-IsFair sem p expired c known.queue
          (omega (arith, known.waiters, sum_by-swap waiters_of before after p))
          (All-middle IsCounted before after p known.seen) in
      record {
        permits = omega (
          arith,
          known.permits,
          fair.permits,
          sum_by-swap permits_of before after p,
          sum_by-swap permits_of before after (turn sem p expired c).0,
        );
        waiters = omega (
          arith,
          known.waiters,
          fair.waiters,
          sum_by-swap waiters_of before after p,
          sum_by-swap waiters_of before after (turn sem p expired c).0,
        );
        queue = omega (arith, fair.queue, fair.same_queue);
        limits = omega (arith, known.limits, fair.same_limit);
        seen = All-replaced IsCounted before after p _ known.seen fair.seen;
      }

  -- Where the semaphore starts with `max_concurrent` permits, none of them assigned, and whatever turns
  -- the tasks take, the snapshot's active count is the number of tasks that hold a permit and of
  -- permits assigned to waiting tasks, together at most `max_concurrent`, and its queue depth is the
  -- number of tasks in the queue, at most the limiter's `max_queued`.
  pub snapshot-IsBounded :
      (new : ℕ → S) (max_concurrent max_queued : ℕ)
      → sem.available_permits (new max_concurrent) ≡ max_concurrent
      → sem.assigned (new max_concurrent) ≡ 0
      → (tasks : List Phase) (c : UpstreamBackpressure S)
      → Reach sem (with_limits new max_concurrent max_queued) tasks c
      → ((snapshot sem c).active ≡ sum_by permits_of tasks + sem.assigned c.limiter)
        × ((snapshot sem c).active ≤ max_concurrent)
        × ((snapshot sem c).queued ≡ sum_by waiters_of tasks)
        × ((snapshot sem c).queued ≤ c.max_queued)
  unfolding snapshot
  snapshot-IsBounded new max_concurrent max_queued fresh idle tasks c r =
      let known = Reach-IsBounded new max_concurrent max_queued fresh idle tasks c r in
      (
        omega (arith, known.permits, known.limits),
        omega (arith, known.permits, known.limits),
        known.waiters,
        known.queue,
      )
