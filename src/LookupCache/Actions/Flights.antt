-- ===== src/LookupCache/Actions/Flights.antt =====
-- lookup_cache.rs: requests, fetches in flight and maintenance as interleaved steps, one for each
-- hold of the cache's lock. A flight is a `LookupFetchGuard` that is still armed.
pub mod Ownership
pub mod Steps
pub mod Reachable
use ship_flow_tauri.Prelude.{
  ℕ, Text, Bool, true, false, not, List, [], ◌∷◌, ◌≡◌, ◌==◌, nat_eq, text_eq, ◌&&◌, ◌||◌,
  if◌then◌else◌,
}
use ship_flow_tauri.Core.Model.{LookupKind}
use ship_flow_tauri.LookupCache.Entry.{LookupCachePolicy}
use ship_flow_tauri.LookupCache.Prune.{LookupCacheInner}
use ship_flow_tauri.LookupCache.Actions.{
  LookupCacheAction, serve, start_fetch, wait, reject, LoaderResult, next_action, finish_fetch,
  resolve_persistent_cache_slot, drop_fetch_guard, remove_entry, invalidate_all,
  prune_expired_and_over_capacity,
}
use ship_flow_tauri.LookupCache.Actions.Capacity.Results.{ErrorFits}

pub record LookupFetchGuard : Type 0 where
  pub cache_key : Text
  pub notify : ℕ
  pub generation : ℕ

pub record World : Type 0 where
  pub inner : LookupCacheInner
  pub flights : List LookupFetchGuard

unfoldable pub is_guard_of : Text → ℕ → ℕ → LookupFetchGuard → Bool
is_guard_of k n g f = f.cache_key == k && (f.notify == n && f.generation == g)

unfoldable pub has_flight : Text → ℕ → ℕ → List LookupFetchGuard → Bool
has_flight k n g [] = false
has_flight k n g (f ∷ fs) = is_guard_of k n g f || has_flight k n g fs

-- The guard is disarmed or dropped: it leaves the list.
unfoldable pub land : LookupFetchGuard → List LookupFetchGuard → List LookupFetchGuard
land f [] = []
land f (g ∷ gs) =
    let rest = land f gs in
    if is_guard_of f.cache_key f.notify f.generation g then rest else g ∷ rest

abbrev pub launched : Text → LookupCacheAction → List LookupFetchGuard → List LookupFetchGuard
launched k (serve entry) fs = fs
launched k (start_fetch notify generation allow_persistent) fs =
    record { cache_key = k; notify = notify; generation = generation } ∷ fs
launched k (wait notify) fs = fs
launched k (reject e) fs = fs

abbrev pub InFlight : LookupFetchGuard → World → Type 0
InFlight f w = has_flight f.cache_key f.notify f.generation w.flights ≡ true

pub data Step (policy : LookupCachePolicy) : World → World → Type 0 where
  request :
      (w : World) (k : Text) (kind : LookupKind) (force_refresh : Bool) (notify now logged_at : ℕ)
      → Step policy w (record {
        inner = (next_action w.inner k kind force_refresh notify now logged_at).1;
        flights =
            launched k (next_action w.inner k kind force_refresh notify now logged_at).0 w.flights;
      })
  finish :
      (w : World) (f : LookupFetchGuard) (kind : LookupKind) (result : LoaderResult)
      (stored_at now logged_at : ℕ)
      → InFlight f w
      → ErrorFits result
      → Step policy w (record {
        inner =
            finish_fetch policy w.inner f.cache_key kind result f.generation stored_at now
              logged_at;
        flights = land f w.flights;
      })
  hydrate :
      (w : World) (f : LookupFetchGuard) (kind : LookupKind) (payload : Text) (stored_at now : ℕ)
      → InFlight f w
      → Step policy w (record {
        inner =
            (resolve_persistent_cache_slot policy w.inner f.cache_key kind payload f.generation
              f.notify stored_at now).1;
        flights = land f w.flights;
      })
  cancel :
      (w : World) (f : LookupFetchGuard)
      → InFlight f w
      → Step policy w (record {
        inner = drop_fetch_guard w.inner f.cache_key f.generation f.notify;
        flights = land f w.flights;
      })
  discard : (w : World) (k : Text) → Step policy w (record w { inner = remove_entry w.inner k })
  invalidate :
      (w : World) (now : ℕ) → Step policy w (record w { inner = invalidate_all w.inner now })
  maintain :
      (w : World) (now : ℕ)
      → Step policy w (record w { inner = prune_expired_and_over_capacity w.inner now })

pub data Reach (policy : LookupCachePolicy) (start : World) : World → Type 0 where
  here : Reach policy start start
  next : {v w : World} → Reach policy start v → Step policy v w → Reach policy start w
