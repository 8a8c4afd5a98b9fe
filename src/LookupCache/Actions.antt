-- ===== src/LookupCache/Actions.antt =====
-- lookup_cache.rs: the critical sections of `LookupCacheState`. Each function is one hold of the
-- lock; a fresh `Notify` and the clock readings are arguments, and log lines are left out.
pub mod Capacity
pub mod Generations
pub mod Flights
pub mod Requests
use ship_flow_tauri.Prelude.{
  ℕ, Text, bytes, Option, none, some, Bool, true, false, not, ltb, leb, ◌&&◌, ◌==◌, nat_eq, text_eq,
  if◌then◌else◌, length, wrapping_add, ◌*◌, [],
}
use ship_flow_tauri.Prelude.HashMap
use ship_flow_tauri.Core.Model.{LookupKind, TrackingError}
use ship_flow_tauri.RuntimeOptions.{RuntimeOptions}
use ship_flow_tauri.LookupCache.Entry.{
  LookupCachePolicy, CachedLookupEntry, LookupCacheSlot, ready, loading, success_entry, error_entry,
  is_expired, max_in_memory_lookup_cache_entry_bytes,
}
use ship_flow_tauri.LookupCache.Metrics.{
  LookupCacheMetricEvent, SummaryReason, record_event, record_invalidation,
}
use ship_flow_tauri.LookupCache.Metrics
use ship_flow_tauri.LookupCache.Prune.{LookupCacheInner, prune_lookup_cache}

pub data LookupCacheAction : Type 0 where
  serve : CachedLookupEntry → LookupCacheAction
  start_fetch : ℕ → ℕ → Bool → LookupCacheAction
  wait : ℕ → LookupCacheAction
  reject : TrackingError → LookupCacheAction

abbrev pub capacity_message : Text
capacity_message = bytes "The in-memory lookup cache is at capacity. Please retry shortly."

-- `inner.metrics.record_event(kind, event)`, the summary dropped.
abbrev pub with_event :
    LookupCacheInner → LookupKind → LookupCacheMetricEvent → ℕ → LookupCacheInner
with_event inner kind event now = record inner {
  metrics = (record_event inner.metrics kind event now).0;
}

-- A ready entry that may be served: a hit.
hit_entry :
    LookupCacheInner
    → Text
    → LookupKind
    → CachedLookupEntry
    → ℕ
    → ℕ
    → LookupCacheAction × LookupCacheInner
hit_entry inner cache_key kind entry now logged_at =
    let touched : CachedLookupEntry = record entry { last_accessed_at = now } in
    (
      LookupCacheAction.serve touched,
      with_event (record inner { entries = HashMap.insert cache_key (ready touched) inner.entries })
          kind LookupCacheMetricEvent.hit logged_at,
    )

-- A ready entry that is bypassed or stale: it gives way to a fetch.
replace_entry :
    LookupCacheInner → Text → LookupKind → Bool → ℕ → ℕ → ℕ → LookupCacheAction × LookupCacheInner
replace_entry inner cache_key kind force_refresh notify now logged_at =
    let event : LookupCacheMetricEvent =
      if force_refresh then LookupCacheMetricEvent.bypass else LookupCacheMetricEvent.stale in
    let counted = with_event inner kind event logged_at in
    (
      LookupCacheAction.start_fetch notify counted.generation false,
      (prune_lookup_cache
          (record counted { entries = HashMap.insert cache_key (loading notify) counted.entries })
          now).0,
    )

-- No slot: a miss, which starts a fetch where there is room.
miss_entry : LookupCacheInner → Text → LookupKind → ℕ → ℕ → ℕ → LookupCacheAction × LookupCacheInner
miss_entry inner cache_key kind notify now logged_at =
    let counted = with_event inner kind LookupCacheMetricEvent.miss logged_at in
    let pruned = (prune_lookup_cache counted now).0 in
    if leb pruned.max_entries (length pruned.entries)
    then (LookupCacheAction.reject (TrackingError.service_unavailable capacity_message), pruned)
    else (
      LookupCacheAction.start_fetch notify pruned.generation true,
      record pruned { entries = HashMap.insert cache_key (loading notify) pruned.entries },
    )

pub slot_action :
    Option LookupCacheSlot
    → LookupCacheInner
    → Text
    → LookupKind
    → Bool
    → ℕ
    → ℕ
    → ℕ
    → LookupCacheAction × LookupCacheInner
slot_action none inner cache_key kind force_refresh notify now logged_at =
    miss_entry inner cache_key kind notify now logged_at
slot_action (some (loading current)) inner cache_key kind force_refresh notify now logged_at = (
  LookupCacheAction.wait current,
  with_event inner kind LookupCacheMetricEvent.coalesced logged_at,
)
slot_action (some (ready entry)) inner cache_key kind force_refresh notify now logged_at =
    if not force_refresh && not (is_expired entry now)
    then hit_entry inner cache_key kind entry now logged_at
    else replace_entry inner cache_key kind force_refresh notify now logged_at

unfoldable pub next_action :
    LookupCacheInner → Text → LookupKind → Bool → ℕ → ℕ → ℕ → LookupCacheAction × LookupCacheInner
unfolding slot_action hit_entry replace_entry miss_entry
next_action inner cache_key kind force_refresh notify now logged_at =
    slot_action (HashMap.get cache_key inner.entries) inner cache_key kind force_refresh notify now
      logged_at

-- `matches!(slot, Loading(current) if Arc::ptr_eq(current, notify))`
is_flight : ℕ → Option LookupCacheSlot → Bool
is_flight notify none = false
is_flight notify (some (ready entry)) = false
is_flight notify (some (loading current)) = current == notify

unfoldable pub owns_loading_slot : LookupCacheInner → Text → ℕ → ℕ → Bool
unfolding is_flight
owns_loading_slot inner cache_key generation notify =
    inner.generation == generation && is_flight notify (HashMap.get cache_key inner.entries)

-- `Drop for LookupFetchGuard`, armed.
unfoldable pub drop_fetch_guard : LookupCacheInner → Text → ℕ → ℕ → LookupCacheInner
unfolding owns_loading_slot
drop_fetch_guard inner cache_key generation notify =
    if owns_loading_slot inner cache_key generation notify
    then record inner { entries = HashMap.remove cache_key inner.entries }
    else inner

unfoldable pub resolve_persistent_cache_slot :
    LookupCachePolicy
    → LookupCacheInner
    → Text
    → LookupKind
    → Text
    → ℕ
    → ℕ
    → ℕ
    → ℕ
    → Bool × LookupCacheInner
unfolding owns_loading_slot
resolve_persistent_cache_slot policy inner cache_key kind payload generation notify stored_at now =
    if not (owns_loading_slot inner cache_key generation notify)
    then (false, inner)
    else if ltb max_in_memory_lookup_cache_entry_bytes (length payload)
    then (false, record inner { entries = HashMap.remove cache_key inner.entries })
    else (
      true,
      (prune_lookup_cache
          (record inner {
            entries =
                HashMap.insert cache_key (ready (success_entry policy kind payload stored_at))
                  inner.entries;
          })
          now).0,
    )

-- What the loader returned: a value with its JSON text (`none` where it does not serialise), or an
-- error.
pub data LoaderResult : Type 0 where
  loaded : Option Text → LoaderResult
  cacheable non_cacheable : TrackingError → LoaderResult

cached_entry_of : LookupCachePolicy → LookupKind → LoaderResult → ℕ → Option CachedLookupEntry
cached_entry_of policy kind (LoaderResult.loaded none) stored_at = none
cached_entry_of policy kind (LoaderResult.loaded (some payload)) stored_at =
    if leb (length payload) max_in_memory_lookup_cache_entry_bytes
    then some (success_entry policy kind payload stored_at)
    else none
cached_entry_of policy kind (LoaderResult.cacheable e) stored_at =
    some (error_entry policy e stored_at)
cached_entry_of policy kind (LoaderResult.non_cacheable e) stored_at = none

store_entry : LookupCacheInner → Text → Option CachedLookupEntry → ℕ → LookupCacheInner
store_entry inner cache_key none now = record inner {
  entries = HashMap.remove cache_key inner.entries;
}
store_entry inner cache_key (some entry) now =
    (prune_lookup_cache
      (record inner { entries = HashMap.insert cache_key (ready entry) inner.entries }) now).0

abbrev result_event : LoaderResult → LookupCacheMetricEvent
result_event (LoaderResult.loaded payload) = LookupCacheMetricEvent.store_success
result_event (LoaderResult.cacheable e) = LookupCacheMetricEvent.store_error
result_event (LoaderResult.non_cacheable e) = LookupCacheMetricEvent.store_error

-- The end of a fetch: its result is stored unless the cache was invalidated meanwhile.
unfoldable pub finish_fetch :
    LookupCachePolicy
    → LookupCacheInner
    → Text
    → LookupKind
    → LoaderResult
    → ℕ
    → ℕ
    → ℕ
    → ℕ
    → LookupCacheInner
unfolding cached_entry_of store_entry
finish_fetch policy inner cache_key kind result generation stored_at now logged_at =
    let stored =
      if inner.generation == generation
      then store_entry inner cache_key (cached_entry_of policy kind result stored_at) now
      else inner in
    with_event stored kind (result_event result) logged_at

unfoldable pub remove_entry : LookupCacheInner → Text → LookupCacheInner
remove_entry inner cache_key = record inner { entries = HashMap.remove cache_key inner.entries }

unfoldable pub invalidate_all : LookupCacheInner → ℕ → LookupCacheInner
invalidate_all inner now = record inner {
  generation = wrapping_add inner.generation 1;
  entries = [];
  metrics = (record_invalidation inner.metrics now).0;
}

unfoldable pub prune_expired_and_over_capacity : LookupCacheInner → ℕ → LookupCacheInner
prune_expired_and_over_capacity inner now = (prune_lookup_cache inner now).0

unfoldable pub configure :
    LookupCachePolicy → LookupCacheInner → RuntimeOptions → LookupCachePolicy × LookupCacheInner
configure policy inner options = (
  record policy {
    track_ttl = options.track_ttl_seconds * 1000;
    bag_ttl = options.bag_ttl_seconds * 1000;
    manifest_ttl = options.manifest_ttl_seconds * 1000;
  },
  record inner { max_entries = options.cache_entries; max_bytes = options.cache_mib * 1024 * 1024 },
)
