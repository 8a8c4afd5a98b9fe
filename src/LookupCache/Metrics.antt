-- ===== src/LookupCache/Metrics.antt =====
-- lookup_cache.rs: event counters and the rule that decides when a summary line is logged. The
-- counters are u64 and wrap, as in a release build; the text of the summary is not modelled.
pub mod Sums
use ship_flow_tauri.Prelude.{
  ℕ, ◌+◌, ◌-◌, ◌*◌, Option, none, some, Bool, ltb, leb, ◌&&◌, if◌then◌else◌, wrapping_add,
  saturating_sub,
}
use ship_flow_tauri.Core.Model.{LookupKind}

pub record LookupCacheMetricBucket : Type 0 where
  pub hits : ℕ
  pub misses : ℕ
  pub bypasses : ℕ
  pub stales : ℕ
  pub coalesced : ℕ
  pub store_successes : ℕ
  pub store_errors : ℕ
  pub invalidations : ℕ

pub data LookupCacheMetricEvent : Type 0 where
  hit miss bypass stale coalesced store_success store_error invalidation : LookupCacheMetricEvent

pub record LookupCacheMetrics : Type 0 where
  pub overall : LookupCacheMetricBucket
  pub track : LookupCacheMetricBucket
  pub bag : LookupCacheMetricBucket
  pub manifest : LookupCacheMetricBucket
  pub last_summary_total : ℕ
  pub last_summary_at : Option ℕ

-- Why a summary is built.
pub data SummaryReason : Type 0 where
  threshold interval invalidated : SummaryReason

abbrev pub cache_summary_min_events : ℕ
cache_summary_min_events = 20

-- 60 seconds
abbrev pub cache_summary_min_interval : ℕ
cache_summary_min_interval = 60 * 1000

abbrev pub empty_bucket : LookupCacheMetricBucket
empty_bucket = record {
  hits = 0;
  misses = 0;
  bypasses = 0;
  stales = 0;
  coalesced = 0;
  store_successes = 0;
  store_errors = 0;
  invalidations = 0;
}

abbrev pub empty_metrics : LookupCacheMetrics
empty_metrics = record {
  overall = empty_bucket;
  track = empty_bucket;
  bag = empty_bucket;
  manifest = empty_bucket;
  last_summary_total = 0;
  last_summary_at = none;
}

unfoldable pub record_in :
    LookupCacheMetricBucket → LookupCacheMetricEvent → LookupCacheMetricBucket
record_in b LookupCacheMetricEvent.hit = record b { hits = wrapping_add b.hits 1 }
record_in b LookupCacheMetricEvent.miss = record b { misses = wrapping_add b.misses 1 }
record_in b LookupCacheMetricEvent.bypass = record b { bypasses = wrapping_add b.bypasses 1 }
record_in b LookupCacheMetricEvent.stale = record b { stales = wrapping_add b.stales 1 }
record_in b LookupCacheMetricEvent.coalesced = record b { coalesced = wrapping_add b.coalesced 1 }
record_in b LookupCacheMetricEvent.store_success = record b {
  store_successes = wrapping_add b.store_successes 1;
}
record_in b LookupCacheMetricEvent.store_error = record b {
  store_errors = wrapping_add b.store_errors 1;
}
record_in b LookupCacheMetricEvent.invalidation = record b {
  invalidations = wrapping_add b.invalidations 1;
}

infixl 65 ◌+u64◌
abbrev ◌+u64◌ : ℕ → ℕ → ℕ
a +u64 b = wrapping_add a b

unfoldable pub total_events : LookupCacheMetricBucket → ℕ
total_events b =
    b.hits +u64 b.misses +u64 b.bypasses +u64 b.stales +u64 b.coalesced +u64 b.store_successes
    +u64 b.store_errors +u64 b.invalidations

-- `self.bucket_for_kind_mut(kind).record(event)`
record_for_kind : LookupCacheMetrics → LookupKind → LookupCacheMetricEvent → LookupCacheMetrics
record_for_kind m LookupKind.track event = record m { track = record_in m.track event }
record_for_kind m LookupKind.bag event = record m { bag = record_in m.bag event }
record_for_kind m LookupKind.manifest event = record m { manifest = record_in m.manifest event }

-- Whether a summary is due, and why.
summary_reason : ℕ → ℕ → Option ℕ → ℕ → Option SummaryReason
summary_reason total last_total none now =
    if leb cache_summary_min_events total then some SummaryReason.threshold else none
summary_reason total last_total (some last_at) now =
    if leb cache_summary_min_events (saturating_sub total last_total)
    then some SummaryReason.threshold
    else if ltb 0 (saturating_sub total last_total)
        && leb cache_summary_min_interval (now - last_at)
    then some SummaryReason.interval
    else none

summarised :
    LookupCacheMetrics → ℕ → Option SummaryReason → LookupCacheMetrics × Option SummaryReason
summarised m now none = (m, none)
summarised m now (some reason) = (
  record m { last_summary_total = total_events m.overall; last_summary_at = some now },
  some reason,
)

unfoldable pub maybe_build_summary :
    LookupCacheMetrics → ℕ → LookupCacheMetrics × Option SummaryReason
unfolding summary_reason summarised
maybe_build_summary m now =
    summarised m now
      (summary_reason (total_events m.overall) m.last_summary_total m.last_summary_at now)

unfoldable pub record_event :
    LookupCacheMetrics
    → LookupKind
    → LookupCacheMetricEvent
    → ℕ
    → LookupCacheMetrics × Option SummaryReason
unfolding record_for_kind
record_event m kind event now =
    maybe_build_summary
      (record_for_kind (record m { overall = record_in m.overall event }) kind event) now

unfoldable pub record_invalidation :
    LookupCacheMetrics → ℕ → LookupCacheMetrics × Option SummaryReason
unfolding summarised
record_invalidation m now =
    summarised (record m { overall = record_in m.overall LookupCacheMetricEvent.invalidation }) now
      (some SummaryReason.invalidated)
