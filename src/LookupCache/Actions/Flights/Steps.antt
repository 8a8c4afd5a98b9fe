-- ===== src/LookupCache/Actions/Flights/Steps.antt =====
-- lookup_cache.rs: requests, landing flights and the owners of loading slots.
use ship_flow_tauri.Prelude.{
  ℕ, Text, Bool, false, not, Option, none, some, List, ◌≡◌, ◌==◌, nat_eq, text_eq, ◌&&◌, leb, ltb,
  length, Bool-cases, inl, inr, arith,
}
use ship_flow_tauri.Prelude.HashMap
use ship_flow_tauri.Prelude.HashMap.{get-insert, get-remove, insert-Distinct}
use ship_flow_tauri.Core.Model.{LookupKind}
use ship_flow_tauri.LookupCache.Entry.{
  LookupCachePolicy, CachedLookupEntry, LookupCacheSlot, ready, loading, is_expired,
  max_in_memory_lookup_cache_entry_bytes,
}
use ship_flow_tauri.LookupCache.Metrics.{LookupCacheMetricEvent}
use ship_flow_tauri.LookupCache.Prune.{LookupCacheInner, prune_lookup_cache}
use ship_flow_tauri.LookupCache.Actions.{
  LoaderResult, hit_entry, replace_entry, miss_entry, slot_action, with_event, finish_fetch,
  store_entry, cached_entry_of, resolve_persistent_cache_slot, owns_loading_slot, is_flight,
  drop_fetch_guard,
}
use ship_flow_tauri.LookupCache.Actions.Flights.{LookupFetchGuard, land, launched}
use ship_flow_tauri.LookupCache.Actions.Capacity.{IsWithin}
use ship_flow_tauri.LookupCache.Actions.Flights.Ownership.{
  IsOwned, land-IsOwned, prune-IsOwned, insert_ready-IsOwned, insert_loading-IsOwned, land_removed,
  land_stored,
}

module _ (inner : LookupCacheInner) (fs : List LookupFetchGuard) (k : Text) (kind : LookupKind)
    (w : IsWithin inner) (o : IsOwned inner fs) where
  miss-IsOwned :
      (notify now logged_at : ℕ)
      → IsOwned
          (miss_entry inner k kind notify now logged_at).1
          (launched k (miss_entry inner k kind notify now logged_at).0 fs)
  unfolding miss_entry
  miss-IsOwned notify now logged_at =
      let counted = with_event inner kind LookupCacheMetricEvent.miss logged_at in
      let pruned = (prune_lookup_cache counted now).0 in
      let owned = prune-IsOwned counted fs now w.distinct o in
      elim (Bool-cases (leb pruned.max_entries (length pruned.entries))) [
        | inl full ↦ rw full owned
        | inr room ↦ rw room (insert_loading-IsOwned pruned fs k notify owned)
      ]

  replace-IsOwned :
      (force_refresh : Bool) (notify now logged_at : ℕ)
      → IsOwned
          (replace_entry inner k kind force_refresh notify now logged_at).1
          (launched k (replace_entry inner k kind force_refresh notify now logged_at).0 fs)
  unfolding replace_entry
  replace-IsOwned force_refresh notify now logged_at =
      prune-IsOwned _ _ now (insert-Distinct k (loading notify) inner.entries w.distinct)
        (insert_loading-IsOwned inner fs k notify o)

  hit-IsOwned :
      (e : CachedLookupEntry) (now logged_at : ℕ)
      → IsOwned
          (hit_entry inner k kind e now logged_at).1
          (launched k (hit_entry inner k kind e now logged_at).0 fs)
  unfolding hit_entry
  hit-IsOwned e now logged_at = insert_ready-IsOwned inner fs k _ o

  pub slot_action-IsOwned :
      (slot : Option LookupCacheSlot) (force_refresh : Bool) (notify now logged_at : ℕ)
      → IsOwned
          (slot_action slot inner k kind force_refresh notify now logged_at).1
          (launched k (slot_action slot inner k kind force_refresh notify now logged_at).0 fs)
  unfolding slot_action
  slot_action-IsOwned none force_refresh notify now logged_at = miss-IsOwned notify now logged_at
  slot_action-IsOwned (some (loading current)) force_refresh notify now logged_at = o
  slot_action-IsOwned (some (ready e)) force_refresh notify now logged_at =
      elim (Bool-cases (not force_refresh && not (is_expired e now))) [
        | inl fresh ↦ rw fresh (hit-IsOwned e now logged_at)
        | inr old ↦ rw old (replace-IsOwned force_refresh notify now logged_at)
      ]

module _ (policy : LookupCachePolicy) (inner : LookupCacheInner) (fs : List LookupFetchGuard)
    (f : LookupFetchGuard) (w : IsWithin inner) (o : IsOwned inner fs) where
  store_entry-IsOwned :
      (entry : Option CachedLookupEntry) (now : ℕ)
      → IsOwned (store_entry inner f.cache_key entry now) (land f fs)
  unfolding store_entry
  store_entry-IsOwned none now = land_removed inner fs f o
  store_entry-IsOwned (some e) now = land_stored inner fs f o e now w.distinct

  pub finish_fetch-IsOwned :
      (kind : LookupKind) (result : LoaderResult) (stored_at now logged_at : ℕ)
      → IsOwned
          (finish_fetch policy inner f.cache_key kind result f.generation stored_at now logged_at)
          (land f fs)
  unfolding finish_fetch
  finish_fetch-IsOwned kind result stored_at now logged_at =
      elim (Bool-cases (inner.generation == f.generation)) [
        | inl current ↦
            rw current (store_entry-IsOwned (cached_entry_of policy kind result stored_at) now)
        | inr stale ↦ rw stale (land-IsOwned inner fs f (λ e _. ground (arith, e, stale)) o)
      ]

  lost_slot :
      (inner.generation ≡ f.generation
        → is_flight f.notify (HashMap.get f.cache_key inner.entries) ≡ false)
      → IsOwned inner (land f fs)
  unfolding is_flight
  lost_slot h = land-IsOwned inner fs f (λ e found. ground (arith, h e, found)) o

  pub resolve_persistent-IsOwned :
      (kind : LookupKind) (payload : Text) (stored_at now : ℕ)
      → IsOwned
          (resolve_persistent_cache_slot policy inner f.cache_key kind payload f.generation f.notify
            stored_at now).1
          (land f fs)
  unfolding resolve_persistent_cache_slot
  resolve_persistent-IsOwned kind payload stored_at now =
      elim (Bool-cases (owns_loading_slot inner f.cache_key f.generation f.notify)) [
        | inl owned ↦
            elim (Bool-cases (ltb max_in_memory_lookup_cache_entry_bytes (length payload))) [
              | inl large ↦ rw (owned, large) (land_removed inner fs f o)
              | inr small ↦ rw (owned, small) (land_stored inner fs f o _ now w.distinct)
            ]
        | inr lost ↦ rw lost (lost_slot (λ e. unfold owns_loading_slot in ground (arith, lost, e)))
      ]

  pub drop_fetch_guard-IsOwned :
      IsOwned (drop_fetch_guard inner f.cache_key f.generation f.notify) (land f fs)
  unfolding drop_fetch_guard
  drop_fetch_guard-IsOwned =
      elim (Bool-cases (owns_loading_slot inner f.cache_key f.generation f.notify)) [
        | inl owned ↦ rw owned (land_removed inner fs f o)
        | inr lost ↦ rw lost (lost_slot (λ e. unfold owns_loading_slot in ground (arith, lost, e)))
      ]
