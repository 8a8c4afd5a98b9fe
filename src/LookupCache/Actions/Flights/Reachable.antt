-- ===== src/LookupCache/Actions/Flights/Reachable.antt =====
-- lookup_cache.rs: what holds of the cache after any interleaving of its critical sections.
use ship_flow_tauri.Prelude.{nat_eq, text_eq, arith}
use ship_flow_tauri.Prelude.HashMap
use ship_flow_tauri.Prelude.HashMap.{get-insert, get-remove, insert-Distinct}
use ship_flow_tauri.LookupCache.Entry.{LookupCachePolicy}
use ship_flow_tauri.LookupCache.Actions.{next_action}
use ship_flow_tauri.LookupCache.Actions.{
  remove_entry, invalidate_all, prune_expired_and_over_capacity,
}
use ship_flow_tauri.LookupCache.Actions.Capacity.{IsWithin, prune_lookup_cache-IsWithin}
use ship_flow_tauri.LookupCache.Actions.Capacity.Requests.{next_action-IsWithin}
use ship_flow_tauri.LookupCache.Actions.Capacity.Results.{
  finish_fetch-IsWithin, resolve_persistent-IsWithin, drop_fetch_guard-IsWithin,
  remove_entry-IsWithin, invalidate_all-IsWithin,
}
use ship_flow_tauri.LookupCache.Actions.Flights.{
  World, Step, Reach, request, finish, hydrate, cancel, discard, invalidate, maintain, here, next,
}
use ship_flow_tauri.LookupCache.Actions.Flights.Ownership.{IsOwned, prune-IsOwned, remove-IsOwned}
use ship_flow_tauri.LookupCache.Actions.Flights.Steps.{
  slot_action-IsOwned, finish_fetch-IsOwned, resolve_persistent-IsOwned, drop_fetch_guard-IsOwned,
}

-- The invariant of the interleavings.
pub record IsSound (world : World) : Type 0 where
  pub within : IsWithin world.inner
  pub owned : IsOwned world.inner world.flights

pub Step-IsSound :
    {policy : LookupCachePolicy} {v w : World} → Step policy v w → IsSound v → IsSound w
unfolding next_action remove_entry invalidate_all prune_expired_and_over_capacity
Step-IsSound (request v k kind force_refresh notify now logged_at) s = record {
  within = next_action-IsWithin v.inner k kind force_refresh notify now logged_at s.within;
  owned =
      slot_action-IsOwned v.inner v.flights k kind s.within s.owned (HashMap.get k v.inner.entries)
        force_refresh notify now logged_at;
}
Step-IsSound {policy} (finish v f kind result stored_at now logged_at _ fits) s = record {
  within =
      finish_fetch-IsWithin policy v.inner f.cache_key kind result f.generation stored_at now
        logged_at fits s.within;
  owned =
      finish_fetch-IsOwned policy v.inner v.flights f s.within s.owned kind result stored_at now
        logged_at;
}
Step-IsSound {policy} (hydrate v f kind payload stored_at now _) s = record {
  within =
      resolve_persistent-IsWithin policy v.inner f.cache_key kind payload f.generation f.notify
        stored_at now s.within;
  owned =
      resolve_persistent-IsOwned policy v.inner v.flights f s.within s.owned kind payload stored_at
        now;
}
Step-IsSound {policy} (cancel v f _) s = record {
  within = drop_fetch_guard-IsWithin v.inner f.cache_key f.generation f.notify s.within;
  owned = drop_fetch_guard-IsOwned policy v.inner v.flights f s.within s.owned;
}
Step-IsSound (discard v k) s = record {
  within = remove_entry-IsWithin v.inner k s.within;
  owned = remove-IsOwned v.inner v.flights k s.owned;
}
Step-IsSound (invalidate v now) s = record {
  within = invalidate_all-IsWithin v.inner now s.within;
  owned = λ k n h. unfold HashMap.get in ground (arith, h);
}
Step-IsSound (maintain v now) s = record {
  within = prune_lookup_cache-IsWithin v.inner now s.within;
  owned = prune-IsOwned v.inner v.flights now s.within.distinct s.owned;
}

-- Whatever requests, results, hydrations, cancellations, invalidations and prunings are interleaved
-- from a sound start, the cache stays within its entry and byte limits with distinct keys and balanced
-- counters, and every loading slot has a fetch in flight that owns it.
pub Reach-IsSound :
    {policy : LookupCachePolicy} {start w : World}
    → IsSound start
    → Reach policy start w
    → IsSound w
Reach-IsSound s here = s
Reach-IsSound s (next r st) = Step-IsSound st (Reach-IsSound s r)
