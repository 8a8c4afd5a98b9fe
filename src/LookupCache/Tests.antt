-- ===== src/LookupCache/Tests.antt =====
-- lookup_cache.rs: runs of the cache on small inputs, and the theorems at inputs that meet their
-- hypotheses.
use ship_flow_tauri.Prelude.{
  ℕ, ◌+◌, ◌≤◌, ◌≡◌, refl, Text, bytes, text_beq, true, false, none, some, [], ◌∷◌, text_eq, arith,
  sum_by, is_some, not, length,
}
use ship_flow_tauri.Prelude.HashMap
use ship_flow_tauri.Core.Model.{LookupKind}
use ship_flow_tauri.RuntimeOptions.{
  RuntimeOptions, OptionsError, default_options, validate, is_usable, validate-is_usable,
}
use ship_flow_tauri.LookupCache.Entry.{
  CachedLookupEntry, CachedLookupValue, LookupCacheSlot, ready, loading, default_policy, is_expired,
  estimated_bytes,
}
use ship_flow_tauri.LookupCache.Entry.Keys.{build_cache_key-injective}
use ship_flow_tauri.LookupCache.Metrics.{LookupCacheMetricEvent, empty_metrics, record_event}
use ship_flow_tauri.LookupCache.Metrics.Sums.{record_event_tallies, empty-IsBalanced}
use ship_flow_tauri.LookupCache.Prune.{
  default_inner, prune_lookup_cache, prune_entries, ready_entries, sort_by_access, insert_by_access,
  total_bytes, evict,
}
use ship_flow_tauri.LookupCache.Prune.Measures.{ready_count, ready_bytes}
use ship_flow_tauri.LookupCache.Prune.Bounds.{prune_fits}
use ship_flow_tauri.LookupCache.Prune.Recency.{prune_lru}
use ship_flow_tauri.LookupCache.Actions.{
  next_action, finish_fetch, resolve_persistent_cache_slot, drop_fetch_guard, invalidate_all,
  LoaderResult,
}
use ship_flow_tauri.LookupCache.Actions.Generations.{invalidated_fetch}
use ship_flow_tauri.LookupCache.Actions.Requests.{Event, asking, returned, turn, run}
use ship_flow_tauri.LookupCache.Actions.Requests.Ends.{has_ended, run_ends}
use ship_flow_tauri.LookupCache.Actions.Flights.{World, Reach, request, here, next}
use ship_flow_tauri.LookupCache.Actions.Flights.Reachable.{IsSound, Reach-IsSound}

abbrev entry_at : ℕ → Text → CachedLookupEntry
entry_at t payload = record {
  expires_at = t + 30000;
  last_accessed_at = t;
  value = CachedLookupValue.success payload;
}

-- Three entries, the second least recently read, and a fetch in flight.
abbrev sample : HashMap.HashMap Text LookupCacheSlot
sample =
    (bytes "a", ready (entry_at 200 (bytes "{1}")))
    ∷ (bytes "b", ready (entry_at 100 (bytes "{22}")))
    ∷ (bytes "c", loading 7)
    ∷ (bytes "d", ready (entry_at 300 (bytes "{}")))
    ∷ []

sample-Distinct : HashMap.Distinct sample
unfolding HashMap.get text_beq
sample-Distinct = (refl, (refl, (refl, (refl, tt))))

prune_runs :
    prune_entries sample 400 3 1000
    ≡ (bytes "a", ready (entry_at 200 (bytes "{1}")))
      ∷ (bytes "c", loading 7)
      ∷ (bytes "d", ready (entry_at 300 (bytes "{}")))
      ∷ []
unfolding prune_entries HashMap.retain HashMap.get HashMap.remove text_beq is_expired ready_entries
    sort_by_access insert_by_access total_bytes evict sum_by estimated_bytes
prune_runs = refl

prune_fits_example :
    (ready_count (prune_entries sample 400 3 1000) ≤ 2)
    × (ready_bytes (prune_entries sample 400 3 1000) ≤ 1000)
unfolding sum_by estimated_bytes
prune_fits_example = prune_fits sample 400 3 1000 sample-Distinct (omega arith)

-- Room for one ready entry: `b` and `a` are evicted, both read before `d`.
prune_lru_example : 200 ≤ 300
unfolding prune_entries HashMap.retain HashMap.get HashMap.remove text_beq is_expired ready_entries
    sort_by_access insert_by_access total_bytes evict sum_by estimated_bytes
prune_lru_example =
    prune_lru sample 400 2 1000 sample-Distinct (bytes "d") (bytes "a") (entry_at 300 (bytes "{}"))
      (entry_at 200 (bytes "{1}")) refl refl refl refl

record_event_tallies_example :
    ((record_event empty_metrics LookupKind.bag LookupCacheMetricEvent.miss 5).0.overall.misses ≡ 1)
    × ((record_event empty_metrics LookupKind.bag LookupCacheMetricEvent.miss 5).0.track.misses ≡ 0)
record_event_tallies_example =
    record_event_tallies empty_metrics LookupKind.bag LookupKind.track LookupCacheMetricEvent.miss
      LookupCacheMetricEvent.miss 5

build_cache_key-injective_example :
    (LookupKind.bag ≡ LookupKind.bag)
    × (bytes "default:" ≡ bytes "default:")
    × (bytes "PID1" ≡ bytes "PID1")
build_cache_key-injective_example =
    build_cache_key-injective LookupKind.bag LookupKind.bag (bytes "default:") (bytes "default:")
      (bytes "PID1") (bytes "PID1") (omega arith) (omega arith) refl

abbrev start : World
start = record { inner = default_inner; flights = [] }

start-IsSound : IsSound start
start-IsSound = record {
  within = record {
    distinct = tt;
    entries_fit = omega arith;
    bytes_fit = unfold sum_by in omega arith;
    addressable = omega arith;
    balanced = empty-IsBalanced;
  };
  owned = λ k n h. unfold HashMap.get in ground (arith, h);
}

-- A first request for "a" starts a fetch with `Notify` 7.
abbrev requested : World
requested = record {
  inner = (next_action default_inner (bytes "a") LookupKind.track false 7 100 100).1;
  flights = record { cache_key = bytes "a"; notify = 7; generation = 0 } ∷ [];
}

requested-Reach : Reach default_policy start requested
unfolding next_action prune_lookup_cache prune_entries HashMap.retain HashMap.get HashMap.remove
    HashMap.insert text_beq ready_entries sort_by_access total_bytes evict sum_by
requested-Reach = next here (request start (bytes "a") LookupKind.track false 7 100 100)

Reach-IsSound_example : IsSound requested
Reach-IsSound_example = Reach-IsSound start-IsSound requested-Reach

invalidated_fetch_example :
    ((finish_fetch default_policy
        (invalidate_all requested.inner 120)
        (bytes "a")
        LookupKind.track
        (LoaderResult.loaded (some (bytes "{}")))
        0
        130
        130
        130).entries
      ≡ [])
    × ((resolve_persistent_cache_slot default_policy
          (invalidate_all requested.inner 120)
          (bytes "a")
          LookupKind.track
          (bytes "{}")
          0
          7
          130
          130).1.entries
        ≡ [])
    × ((drop_fetch_guard (invalidate_all requested.inner 120) (bytes "a") 0 7).entries ≡ [])
unfolding next_action prune_lookup_cache prune_entries HashMap.retain HashMap.get HashMap.remove
    HashMap.insert text_beq ready_entries sort_by_access total_bytes evict sum_by record_event
invalidated_fetch_example =
    invalidated_fetch default_policy requested.inner (bytes "a") LookupKind.track
      (LoaderResult.loaded (some (bytes "{}"))) (bytes "{}") 120 7 130 130 130 (omega arith)

-- Limits of 5 entries and 1 MiB.
abbrev small_options : RuntimeOptions
small_options = record default_options { cache_entries = 5; cache_mib = 1 }

-- A public concurrency above the upstream concurrency.
abbrev uneven_options : RuntimeOptions
uneven_options = record small_options { lookup_concurrency = 20 }

options_tests :
    (validate (λ _. false) small_options ≡ none)
    × (validate (λ _. false) uneven_options ≡ some OptionsError.public_concurrency_too_large)
unfolding validate
options_tests = (refl, refl)

validate-is_usable_example :
    is_some (validate (λ _. false) uneven_options) ≡ not (is_usable (λ _. false) uneven_options)
validate-is_usable_example = validate-is_usable (λ _. false) uneven_options

-- A first request: a miss, nothing in the persistent cache, and a result of the loader.
abbrev event : Event
event = record {
  notify = 7;
  stored_at = 100;
  now = 100;
  logged_at = 100;
  persistent = none;
  result = LoaderResult.loaded (some (bytes "{}"));
}

run_returns :
    (run default_policy
      (λ _. true)
      (bytes "a")
      LookupKind.track
      false
      (asking false)
      (event ∷ event ∷ event ∷ [])
      start).0
    ≡ returned (some (bytes "{}"))
unfolding run turn next_action prune_lookup_cache prune_entries HashMap.retain HashMap.get
    HashMap.remove HashMap.insert text_beq ready_entries sort_by_access total_bytes evict sum_by
    record_event
run_returns = refl

-- An entry that is in time and does not decode.
abbrev garbled : World
garbled = record {
  inner = record default_inner { entries = (bytes "a", ready (entry_at 50 (bytes "{1}"))) ∷ [] };
  flights = [];
}

run_ends_example :
    (has_ended
        (run default_policy
          (λ payload. text_beq payload (bytes "{}"))
          (bytes "a")
          LookupKind.track
          false
          (asking false)
          (event ∷ event ∷ event ∷ event ∷ event ∷ [])
          garbled).0
      ≡ true)
    × (length
          (run default_policy
            (λ payload. text_beq payload (bytes "{}"))
            (bytes "a")
            LookupKind.track
            false
            (asking false)
            (event ∷ event ∷ event ∷ event ∷ event ∷ [])
            garbled).1.flights
        ≤ 0)
unfolding HashMap.get text_beq
run_ends_example =
    run_ends default_policy (λ payload. text_beq payload (bytes "{}")) (bytes "a") LookupKind.track
      false false event event event event event garbled refl
