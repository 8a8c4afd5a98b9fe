-- ===== src/LookupCache/Metrics/Sums.antt =====
-- lookup_cache.rs: the overall counters beside those of the three lookup kinds, and summaries.
use ship_flow_tauri.Prelude.{
  ℕ, ◌+◌, ◌%◌, ◌≡◌, refl, ap, ◌∙◌, Bool, ◌&&◌, ◌==◌, nat_eq, if◌then◌else◌, arith, u64_mod,
}
use ship_flow_tauri.Core.Model.{LookupKind}
use ship_flow_tauri.LookupCache.Metrics.{
  LookupCacheMetricBucket, LookupCacheMetrics, LookupCacheMetricEvent, empty_metrics, record_in,
  record_for_kind, record_event, record_invalidation, maybe_build_summary,
}

-- The counter of an event.
abbrev pub counter : LookupCacheMetricEvent → LookupCacheMetricBucket → ℕ
counter LookupCacheMetricEvent.hit b = b.hits
counter LookupCacheMetricEvent.miss b = b.misses
counter LookupCacheMetricEvent.bypass b = b.bypasses
counter LookupCacheMetricEvent.stale b = b.stales
counter LookupCacheMetricEvent.coalesced b = b.coalesced
counter LookupCacheMetricEvent.store_success b = b.store_successes
counter LookupCacheMetricEvent.store_error b = b.store_errors
counter LookupCacheMetricEvent.invalidation b = b.invalidations

abbrev pub bucket_of : LookupKind → LookupCacheMetrics → LookupCacheMetricBucket
bucket_of LookupKind.track m = m.track
bucket_of LookupKind.bag m = m.bag
bucket_of LookupKind.manifest m = m.manifest

abbrev event_number : LookupCacheMetricEvent → ℕ
event_number LookupCacheMetricEvent.hit = 0
event_number LookupCacheMetricEvent.miss = 1
event_number LookupCacheMetricEvent.bypass = 2
event_number LookupCacheMetricEvent.stale = 3
event_number LookupCacheMetricEvent.coalesced = 4
event_number LookupCacheMetricEvent.store_success = 5
event_number LookupCacheMetricEvent.store_error = 6
event_number LookupCacheMetricEvent.invalidation = 7

abbrev kind_number : LookupKind → ℕ
kind_number LookupKind.track = 0
kind_number LookupKind.bag = 1
kind_number LookupKind.manifest = 2

abbrev pub is_same_event : LookupCacheMetricEvent → LookupCacheMetricEvent → Bool
is_same_event a b = event_number a == event_number b

abbrev pub is_same_kind : LookupKind → LookupKind → Bool
is_same_kind a b = kind_number a == kind_number b

-- One more, where it counts, on a u64.
abbrev pub tallied : Bool → ℕ → ℕ
tallied counts n = if counts then (n + 1) % u64_mod else n

-- Sums modulo 2^64, as u64 counters give them.
pub record IsBalanced (m : LookupCacheMetrics) : Type 0 where
  pub hits : m.overall.hits ≡ (m.track.hits + m.bag.hits + m.manifest.hits) % u64_mod
  pub misses : m.overall.misses ≡ (m.track.misses + m.bag.misses + m.manifest.misses) % u64_mod
  pub bypasses :
      m.overall.bypasses ≡ (m.track.bypasses + m.bag.bypasses + m.manifest.bypasses) % u64_mod
  pub stales : m.overall.stales ≡ (m.track.stales + m.bag.stales + m.manifest.stales) % u64_mod
  pub coalesced :
      m.overall.coalesced ≡ (m.track.coalesced + m.bag.coalesced + m.manifest.coalesced) % u64_mod
  pub store_successes :
      m.overall.store_successes
      ≡ (m.track.store_successes + m.bag.store_successes + m.manifest.store_successes) % u64_mod
  pub store_errors :
      m.overall.store_errors
      ≡ (m.track.store_errors + m.bag.store_errors + m.manifest.store_errors) % u64_mod

counted-IsBalanced :
    (m : LookupCacheMetrics) (kind : LookupKind) (event : LookupCacheMetricEvent)
    → IsBalanced m
    → IsBalanced (record_for_kind (record m { overall = record_in m.overall event }) kind event)
unfolding record_for_kind record_in
counted-IsBalanced m LookupKind.track LookupCacheMetricEvent.hit b = omega arith
counted-IsBalanced m LookupKind.track event b = omega arith
counted-IsBalanced m LookupKind.bag LookupCacheMetricEvent.hit b = omega arith
counted-IsBalanced m LookupKind.bag event b = omega arith
counted-IsBalanced m LookupKind.manifest LookupCacheMetricEvent.hit b = omega arith
counted-IsBalanced m LookupKind.manifest event b = omega arith

summary-IsBalanced :
    (m : LookupCacheMetrics) (now : ℕ) → IsBalanced m → IsBalanced (maybe_build_summary m now).0
unfolding maybe_build_summary
summary-IsBalanced m now b = ground arith

-- Counting an event keeps each overall counter, but that of invalidations, the sum of the three
-- kinds' counters modulo 2^64.
pub record_event-IsBalanced :
    (m : LookupCacheMetrics) (kind : LookupKind) (event : LookupCacheMetricEvent) (now : ℕ)
    → IsBalanced m
    → IsBalanced (record_event m kind event now).0
unfolding record_event
record_event-IsBalanced m kind event now b =
    summary-IsBalanced _ now (counted-IsBalanced m kind event b)

pub record_invalidation-IsBalanced :
    (m : LookupCacheMetrics) (now : ℕ) → IsBalanced m → IsBalanced (record_invalidation m now).0
unfolding record_invalidation record_in
record_invalidation-IsBalanced m now b = ground arith

pub empty-IsBalanced : IsBalanced empty_metrics
empty-IsBalanced = omega arith

record_in_tally :
    (b : LookupCacheMetricBucket) (event e : LookupCacheMetricEvent)
    → counter e (record_in b event) ≡ tallied (is_same_event e event) (counter e b)
unfolding record_in
record_in_tally b event e = ground arith

bucket_tally :
    (m : LookupCacheMetrics) (kind k : LookupKind) (event e : LookupCacheMetricEvent)
    → counter e (bucket_of k (record_for_kind m kind event))
      ≡ tallied (is_same_kind k kind && is_same_event e event) (counter e (bucket_of k m))
unfolding record_for_kind
bucket_tally m LookupKind.track LookupKind.track event e = record_in_tally m.track event e
bucket_tally m LookupKind.track LookupKind.bag event e = refl
bucket_tally m LookupKind.track LookupKind.manifest event e = refl
bucket_tally m LookupKind.bag LookupKind.track event e = refl
bucket_tally m LookupKind.bag LookupKind.bag event e = record_in_tally m.bag event e
bucket_tally m LookupKind.bag LookupKind.manifest event e = refl
bucket_tally m LookupKind.manifest LookupKind.track event e = refl
bucket_tally m LookupKind.manifest LookupKind.bag event e = refl
bucket_tally m LookupKind.manifest LookupKind.manifest event e = record_in_tally m.manifest event e

overall_kept :
    (m : LookupCacheMetrics) (kind : LookupKind) (event : LookupCacheMetricEvent)
    → (record_for_kind m kind event).overall ≡ m.overall
unfolding record_for_kind
overall_kept m LookupKind.track event = refl
overall_kept m LookupKind.bag event = refl
overall_kept m LookupKind.manifest event = refl

summary_overall :
    (m : LookupCacheMetrics) (now : ℕ) → (maybe_build_summary m now).0.overall ≡ m.overall
unfolding maybe_build_summary
summary_overall m now = ground arith

summary_bucket :
    (m : LookupCacheMetrics) (now : ℕ) (k : LookupKind)
    → bucket_of k (maybe_build_summary m now).0 ≡ bucket_of k m
unfolding maybe_build_summary
summary_bucket m now LookupKind.track = ground arith
summary_bucket m now LookupKind.bag = ground arith
summary_bucket m now LookupKind.manifest = ground arith

bucket_before :
    (m : LookupCacheMetrics) (k : LookupKind) (event e : LookupCacheMetricEvent) (counts : Bool)
    → tallied counts (counter e (bucket_of k (record m { overall = record_in m.overall event })))
      ≡ tallied counts (counter e (bucket_of k m))
bucket_before m LookupKind.track event e counts = refl
bucket_before m LookupKind.bag event e counts = refl
bucket_before m LookupKind.manifest event e counts = refl

-- An event is counted once overall and once for its own kind, as a u64 that wraps; no other counter
-- changes, of another event or of another kind, whether or not a summary is due.
pub record_event_tallies :
    (m : LookupCacheMetrics) (kind k : LookupKind) (event e : LookupCacheMetricEvent) (now : ℕ)
    → (counter e (record_event m kind event now).0.overall
        ≡ tallied (is_same_event e event) (counter e m.overall))
      × (counter e (bucket_of k (record_event m kind event now).0)
          ≡ tallied (is_same_kind k kind && is_same_event e event) (counter e (bucket_of k m)))
unfolding record_event
record_event_tallies m kind k event e now =
    let before = record m { overall = record_in m.overall event } in
    (
      ap (counter e) (
            summary_overall (record_for_kind before kind event) now
            ∙ overall_kept before kind event)
          ∙ record_in_tally m.overall event e,
      ap (counter e) (summary_bucket (record_for_kind before kind event) now k)
          ∙ bucket_tally before kind k event e
          ∙ bucket_before m k event e (is_same_kind k kind && is_same_event e event),
    )
