-- ===== src/LookupCache/Actions/Requests.antt =====
-- lookup_cache.rs: `resolve_cached_lookup`, the control of one request. A turn is what the request does
-- up to its next lock or await; decoding JSON is a parameter, and so are what the persistent cache and
-- the loader return.
pub mod Ends
use ship_flow_tauri.Prelude.{
  ℕ, Text, Bool, false, not, Option, none, some, List, [], ◌∷◌, ◌&&◌, if◌then◌else◌,
}
use ship_flow_tauri.Core.Model.{LookupKind, TrackingError}
use ship_flow_tauri.LookupCache.Entry.{LookupCachePolicy, CachedLookupValue, to_tracking_error}
use ship_flow_tauri.LookupCache.Actions.{
  LookupCacheAction, serve, start_fetch, wait, reject, LoaderResult, next_action, finish_fetch,
  resolve_persistent_cache_slot, remove_entry,
}
use ship_flow_tauri.LookupCache.Actions.Flights.{LookupFetchGuard, World, launched, land}

-- Where a request stands: before `next_action`; with an entry that does not decode; at `notified.await`;
-- at `load_persistent_success` and at the loader, with its guard; and at its end.
pub data Phase : Type 0 where
  asking discarding : Bool → Phase
  waiting : ℕ → Phase
  hydrating loading_from_source : LookupFetchGuard → Phase
  returned : Option Text → Phase
  failed : TrackingError → Phase

-- What a turn meets: a fresh `Notify`, the clock, the persistent payload and the loader's result.
pub record Event : Type 0 where
  pub notify : ℕ
  pub stored_at : ℕ
  pub now : ℕ
  pub logged_at : ℕ
  pub persistent : Option Text
  pub result : LoaderResult

module _ (policy : LookupCachePolicy) (decodes : Text → Bool) (k : Text) (kind : LookupKind)
    (force_refresh : Bool) where
  serve_value : Bool → CachedLookupValue → Phase
  serve_value bypass (CachedLookupValue.success payload) =
      if decodes payload then returned (some payload) else discarding bypass
  serve_value bypass (CachedLookupValue.error e) = failed (to_tracking_error e)

  after_action : Bool → LookupCacheAction → Phase
  after_action bypass (serve entry) = serve_value bypass entry.value
  after_action bypass (wait n) = waiting n
  after_action bypass (reject e) = failed e
  after_action bypass (start_fetch notify generation allow_persistent) =
      let guard : LookupFetchGuard = record {
        cache_key = k;
        notify = notify;
        generation = generation;
      } in
      if allow_persistent && not force_refresh then hydrating guard else loading_from_source guard

  outcome_of : LoaderResult → Phase
  outcome_of (LoaderResult.loaded payload) = returned payload
  outcome_of (LoaderResult.cacheable e) = failed e
  outcome_of (LoaderResult.non_cacheable e) = failed e

  hydrated : Option Text → LookupFetchGuard → Event → World → Phase × World
  hydrated none guard event w = (loading_from_source guard, w)
  hydrated (some payload) guard event w =
      if decodes payload
      then (
        returned (some payload),
        record {
          inner =
              (resolve_persistent_cache_slot policy w.inner guard.cache_key kind payload
                guard.generation guard.notify event.stored_at event.now).1;
          flights = land guard w.flights;
        },
      )
      else (loading_from_source guard, w)

  unfoldable pub turn : Phase → Event → World → Phase × World
  unfolding serve_value after_action outcome_of hydrated
  turn (asking bypass) event w =
      let decided = next_action w.inner k kind bypass event.notify event.now event.logged_at in
      (
        after_action bypass decided.0,
        record { inner = decided.1; flights = launched k decided.0 w.flights },
      )
  turn (discarding bypass) event w = (asking bypass, record w { inner = remove_entry w.inner k })
  turn (waiting n) event w = (asking false, w)
  turn (hydrating guard) event w = hydrated event.persistent guard event w
  turn (loading_from_source guard) event w = (
    outcome_of event.result,
    record {
      inner =
          finish_fetch policy w.inner guard.cache_key kind event.result guard.generation
            event.stored_at event.now event.logged_at;
      flights = land guard w.flights;
    },
  )
  turn (returned payload) event w = (returned payload, w)
  turn (failed e) event w = (failed e, w)

  unfoldable pub run : Phase → List Event → World → Phase × World
  run phase [] w = (phase, w)
  run phase (event ∷ rest) w = run (turn phase event w).0 rest (turn phase event w).1
