-- ===== src/LookupCache/Actions/Capacity.antt =====
-- lookup_cache.rs: the limits of the cache, and what pruning, inserting and counting do to them.
pub mod Requests
pub mod Results
use ship_flow_tauri.Prelude.{
  ℕ, ◌+◌, ◌-◌, ◌≤◌, ◌≡◌, refl, Text, Option, none, some, Bool, true, false, not, List, [], ◌∷◌,
  ◌==◌, text_eq, nat_eq, if◌then◌else◌, leb, ltb, ◌&&◌, length, u64_max, isize_max, sum_by,
  sum_by_nil, weight_of, Bool-cases, Option-cases, inl, inr, arith, length-sum_by,
}
use ship_flow_tauri.Prelude.HashMap
use ship_flow_tauri.Prelude.HashMap.{HashMap, insert-Distinct, remove-Distinct}
use ship_flow_tauri.Prelude.HashMap.Measure.{
  sum_by-insert-some, sum_by-insert-le, sum_by-remove-le, length-insert-le, length-insert-some,
  length-remove-le,
}
use ship_flow_tauri.Core.Model.{LookupKind, TrackingError}
use ship_flow_tauri.LookupCache.Entry.{
  LookupCachePolicy, CachedLookupEntry, LookupCacheSlot, ready, loading, estimated_bytes,
  success_entry, error_entry, from_tracking_error,
}
use ship_flow_tauri.LookupCache.Metrics.{LookupCacheMetricEvent}
use ship_flow_tauri.LookupCache.Metrics.Sums.{
  IsBalanced, record_event-IsBalanced, record_invalidation-IsBalanced, empty-IsBalanced,
}
use ship_flow_tauri.LookupCache.Prune.{
  LookupCacheInner, prune_lookup_cache, prune_entries, is_loading, default_inner,
}
use ship_flow_tauri.LookupCache.Prune.Measures.{
  Entries, ready_count, ready_bytes, loading_count, ready_weight, bytes_weight,
  length-ready-loading,
}
use ship_flow_tauri.LookupCache.Prune.Bounds.{
  prune-Distinct, prune_fits, prune-le-capacity, loading_count-prune,
}
use ship_flow_tauri.LookupCache.Actions.{
  next_action, with_event, hit_entry, replace_entry, miss_entry, slot_action, drop_fetch_guard,
  resolve_persistent_cache_slot, LoaderResult, finish_fetch, store_entry, cached_entry_of,
  remove_entry, invalidate_all, prune_expired_and_over_capacity,
}

pub record IsWithin (inner : LookupCacheInner) : Type 0 where
  pub distinct : HashMap.Distinct inner.entries
  pub entries_fit : length inner.entries ≤ inner.max_entries
  pub bytes_fit : ready_bytes inner.entries ≤ inner.max_bytes
  pub addressable : inner.max_bytes ≤ isize_max
  pub balanced : IsBalanced inner.metrics

abbrev loading_weight : Text × LookupCacheSlot → ℕ
loading_weight = weight_of (λ (e : Text × LookupCacheSlot). is_loading e.1)

module _ (inner : LookupCacheInner) (now : ℕ) where
  -- Pruning restores the limits of a map whose fetches in flight fit.
  prune-IsWithin :
      HashMap.Distinct inner.entries
      → loading_count inner.entries ≤ inner.max_entries
      → ready_bytes inner.entries ≤ u64_max
      → inner.max_bytes ≤ isize_max
      → IsBalanced inner.metrics
      → IsWithin (prune_lookup_cache inner now).0
  unfolding prune_lookup_cache
  prune-IsWithin d loads sum addressable balanced = record {
    distinct = prune-Distinct inner.entries now inner.max_entries inner.max_bytes d;
    entries_fit = prune-le-capacity inner.entries now inner.max_entries inner.max_bytes d sum loads;
    bytes_fit = (prune_fits inner.entries now inner.max_entries inner.max_bytes d sum).1;
    addressable = addressable;
    balanced = balanced;
  }

  pub prune_lookup_cache-IsWithin : IsWithin inner → IsWithin (prune_lookup_cache inner now).0
  prune_lookup_cache-IsWithin w =
      prune-IsWithin w.distinct (omega (arith, length-ready-loading inner.entries, w.entries_fit))
        (omega (arith, w.bytes_fit, w.addressable)) w.addressable w.balanced

-- Adding a ready entry and pruning.
insert_ready-IsWithin :
    (inner : LookupCacheInner) (now : ℕ) (k : Text) (e : CachedLookupEntry)
    → estimated_bytes e ≤ isize_max
    → IsWithin inner
    → loading_count (HashMap.insert k (ready e) inner.entries) ≤ inner.max_entries
    → IsWithin
        (prune_lookup_cache
          (record inner { entries = HashMap.insert k (ready e) inner.entries })
          now).0
insert_ready-IsWithin inner now k e size w loads =
    prune-IsWithin (record inner { entries = HashMap.insert k (ready e) inner.entries }) now
      (insert-Distinct k (ready e) inner.entries w.distinct) loads
      (omega (
        arith,
        sum_by-insert-le bytes_weight k (ready e) inner.entries,
        w.bytes_fit,
        w.addressable,
        size,
      ))
      w.addressable w.balanced

loading_count-insert_ready :
    (inner : LookupCacheInner) (k : Text) (e : CachedLookupEntry)
    → IsWithin inner
    → loading_count (HashMap.insert k (ready e) inner.entries) ≤ inner.max_entries
loading_count-insert_ready inner k e w = omega (
  arith,
  sum_by-insert-le loading_weight k (ready e) inner.entries,
  length-ready-loading inner.entries,
  w.entries_fit,
)

remove_key-IsWithin :
    (inner : LookupCacheInner) (k : Text)
    → IsWithin inner
    → IsWithin (record inner { entries = HashMap.remove k inner.entries })
remove_key-IsWithin inner k w = record {
  distinct = remove-Distinct k inner.entries w.distinct;
  entries_fit = omega (arith, length-remove-le k inner.entries, w.entries_fit);
  bytes_fit = omega (arith, sum_by-remove-le bytes_weight k inner.entries, w.bytes_fit);
  addressable = w.addressable;
  balanced = w.balanced;
}

with_event-IsWithin :
    (inner : LookupCacheInner) (kind : LookupKind) (event : LookupCacheMetricEvent) (now : ℕ)
    → IsWithin inner
    → IsWithin (with_event inner kind event now)
with_event-IsWithin inner kind event now w = record {
  distinct = w.distinct;
  entries_fit = w.entries_fit;
  bytes_fit = w.bytes_fit;
  addressable = w.addressable;
  balanced = record_event-IsBalanced inner.metrics kind event now w.balanced;
}
