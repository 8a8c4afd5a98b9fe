-- ===== src/Backpressure/Tests.antt =====
-- upstream_backpressure.rs: a run with a semaphore that keeps its line.
use ship_flow_tauri.Prelude.{
  ℕ, zero, suc, ◌+◌, ◌≤◌, false, Option, none, some, List, [], ◌∷◌, ◌++◌, ◌≡◌, refl, ◌==◌, nat_eq,
  sum_by, arith, length, if◌then◌else◌, inl, inr, Option-cases,
}
use ship_flow_tauri.Backpressure.{
  TryAcquire, acquired, no_permits, PollAcquire, granted, pending, Semaphore, permit, arriving,
  holding, released, waiting, queueing, spinning, dropping, UpstreamBackpressure, snapshot, turn,
  Reach, start, arrive, move, with_limits, increment_waiter,
}
use ship_flow_tauri.Backpressure.Turns.{permits_of, waiters_of}
use ship_flow_tauri.Backpressure.Bounds.{snapshot-IsBounded}

-- The available permits, the next place, the places that wait, and those with a permit assigned.
record Line : Type 0 where
  pub free : ℕ
  pub next : ℕ
  pub line : List ℕ
  pub ready : List ℕ

abbrev with_permits : ℕ → Line
with_permits n = record { free = n; next = 0; line = []; ready = [] }

take_out : ℕ → List ℕ → Option (List ℕ)
take_out place [] = none
take_out place (x ∷ xs) =
    let rest = take_out place xs in
    if x == place then some xs else elim rest [ none ↦ none | some ys ↦ some (x ∷ ys) ]

take_out-length :
    (place : ℕ) (xs ys : List ℕ) → take_out place xs ≡ some ys → length xs ≡ suc (length ys)
unfolding take_out
take_out-length place [] ys h = ground (arith, h)
take_out-length place (x ∷ xs) ys h = elim (Option-cases (take_out place xs)) [
  | inl missing ↦ ground (arith, h, missing)
  | inr (zs, there) ↦ ground (arith, h, there, take_out-length place xs zs there)
]

try_line : ℕ → Line → TryAcquire Line
try_line zero s = no_permits
try_line (suc n) s = acquired (record s { free = n })

try_line-total :
    (n : ℕ) (s t : Line)
    → s.free ≡ n
    → try_line n s ≡ acquired t
    → s.free + length s.ready ≡ suc (t.free + length t.ready)
unfolding try_line
try_line-total zero s t e h = ground (arith, h)
try_line-total (suc n) s t e h = ground (arith, e, h)

join_line : ℕ → Line → PollAcquire Line
join_line zero s = pending s.next (record s { next = suc s.next; line = s.line ++ (s.next ∷ []) })
join_line (suc n) s = granted (record s { free = n })

poll_ready : ℕ → Line → Option (List ℕ) → PollAcquire Line
poll_ready place s none = pending place s
poll_ready place s (some rest) = granted (record s { ready = rest })

abbrev poll_line : Option ℕ → Line → PollAcquire Line
poll_line none s = join_line s.free s
poll_line (some place) s = poll_ready place s (take_out place s.ready)

-- A permit goes to the first in the line.
abbrev give : List ℕ → Line → Line
give [] s = record s { free = suc s.free; line = [] }
give (x ∷ xs) s = record s { line = xs; ready = x ∷ s.ready }

give-total :
    (xs : List ℕ) (s : Line)
    → (give xs s).free + length (give xs s).ready ≡ suc (s.free + length s.ready)
give-total [] s = omega arith
give-total (x ∷ xs) s = ground arith

abbrev drop_place : ℕ → Line → Option (List ℕ) → Option (List ℕ) → Line
drop_place place s (some rest) _ = give s.line (record s { ready = rest })
drop_place place s none (some rest) = record s { line = rest }
drop_place place s none none = s

drop_place-total :
    (place : ℕ) (s : Line) (ready line : Option (List ℕ))
    → take_out place s.ready ≡ ready
    → (drop_place place s ready line).free + length (drop_place place s ready line).ready
      ≡ s.free + length s.ready
drop_place-total place s (some rest) line h =
    omega
      (arith, give-total s.line (record s { ready = rest }), take_out-length place s.ready rest h)
drop_place-total place s none (some rest) h = refl
drop_place-total place s none none h = refl

join_line-granted :
    (n : ℕ) (s t : Line)
    → s.free ≡ n
    → join_line n s ≡ granted t
    → s.free + length s.ready ≡ suc (t.free + length t.ready)
unfolding join_line
join_line-granted zero s t e h = ground (arith, h)
join_line-granted (suc n) s t e h = ground (arith, e, h)

join_line-pending :
    (n : ℕ) (s : Line) (next : ℕ) (t : Line)
    → join_line n s ≡ pending next t
    → s.free + length s.ready ≡ t.free + length t.ready
unfolding join_line
join_line-pending zero s next t h = ground (arith, h)
join_line-pending (suc n) s next t h = ground (arith, h)

poll_ready-granted :
    (place : ℕ) (s t : Line) (o : Option (List ℕ))
    → take_out place s.ready ≡ o
    → poll_ready place s o ≡ granted t
    → s.free + length s.ready ≡ suc (t.free + length t.ready)
unfolding poll_ready
poll_ready-granted place s t none e h = ground (arith, h)
poll_ready-granted place s t (some rest) e h =
    ground (arith, h, take_out-length place s.ready rest e)

poll_ready-pending :
    (place : ℕ) (s : Line) (next : ℕ) (t : Line) (o : Option (List ℕ))
    → poll_ready place s o ≡ pending next t
    → s.free + length s.ready ≡ t.free + length t.ready
unfolding poll_ready
poll_ready-pending place s next t none h = ground (arith, h)
poll_ready-pending place s next t (some rest) h = ground (arith, h)

poll_line-granted :
    (place : Option ℕ) (s t : Line)
    → poll_line place s ≡ granted t
    → s.free + length s.ready ≡ suc (t.free + length t.ready)
poll_line-granted none s t h = join_line-granted s.free s t refl h
poll_line-granted (some place) s t h = poll_ready-granted place s t (take_out place s.ready) refl h

poll_line-pending :
    (place : Option ℕ) (s : Line) (next : ℕ) (t : Line)
    → poll_line place s ≡ pending next t
    → s.free + length s.ready ≡ t.free + length t.ready
poll_line-pending none s next t h = join_line-pending s.free s next t h
poll_line-pending (some place) s next t h =
    poll_ready-pending place s next t (take_out place s.ready) h

abbrev fair_line : Semaphore Line
fair_line = record {
  available_permits = λ s. s.free;
  assigned = λ s. length s.ready;
  try_acquire = λ s. try_line s.free s;
  poll_acquire = poll_line;
  release = λ s. give s.line s;
  leave = λ place s. drop_place place s (take_out place s.ready) (take_out place s.line);
  total-acquired = λ s t h. try_line-total s.free s t refl h;
  total-granted = poll_line-granted;
  total-pending = poll_line-pending;
  total-release = λ s. give-total s.line s;
  total-leave = λ place s. drop_place-total place s (take_out place s.ready) _ refl;
}

-- The permit was released while the second task was in the line: it is assigned to that task.
abbrev handed_over : UpstreamBackpressure Line
handed_over = record {
  limiter = record { free = 0; next = 1; line = []; ready = 0 ∷ [] };
  waiters = 1;
  max_concurrent = 1;
  max_queued = 2;
}

one_waits :
    Reach fair_line (with_limits with_permits 1 2) (waiting (some 0) ∷ released ∷ []) handed_over
unfolding with_limits turn increment_waiter try_line join_line
one_waits =
    let first = move [] [] arriving false (arrive start) in
    let second = move [] (holding ∷ []) arriving false (arrive first) in
    let loaded = move [] (holding ∷ []) queueing false second in
    let counted = move [] (holding ∷ []) (spinning 0) false loaded in
    let queued = move [] (holding ∷ []) (waiting none) false counted in
    move (waiting (some 0) ∷ []) [] holding false queued

handed_over_tests :
    ((snapshot fair_line handed_over).active ≡ 1)
    × (sum_by permits_of (waiting (some 0) ∷ released ∷ []) ≡ 0)
    × ((turn fair_line (waiting (some 0)) false handed_over).0 ≡ dropping permit)
unfolding snapshot turn sum_by poll_ready take_out
handed_over_tests = (refl, refl, refl)

snapshot-IsBounded_example :
    ((snapshot fair_line handed_over).active
      ≡ sum_by permits_of (waiting (some 0) ∷ released ∷ []) + 1)
    × ((snapshot fair_line handed_over).active ≤ 1)
    × ((snapshot fair_line handed_over).queued
        ≡ sum_by waiters_of (waiting (some 0) ∷ released ∷ []))
    × ((snapshot fair_line handed_over).queued ≤ 2)
snapshot-IsBounded_example =
    snapshot-IsBounded fair_line with_permits 1 2 refl refl (waiting (some 0) ∷ released ∷ [])
      handed_over one_waits
