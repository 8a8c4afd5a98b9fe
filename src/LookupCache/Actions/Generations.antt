-- ===== src/LookupCache/Actions/Generations.antt =====
-- lookup_cache.rs: fetches of another generation than the cache's.
use ship_flow_tauri.Prelude.{ℕ, ◌<◌, ◌≡◌, ◌≢◌, ap, Text, Bool, false, [], nat_eq, arith, u64_mod}
use ship_flow_tauri.Core.Model.{LookupKind}
use ship_flow_tauri.LookupCache.Entry.{LookupCachePolicy}
use ship_flow_tauri.LookupCache.Prune.{LookupCacheInner}
use ship_flow_tauri.LookupCache.Actions.{
  LoaderResult, finish_fetch, resolve_persistent_cache_slot, owns_loading_slot, drop_fetch_guard,
  invalidate_all,
}

module _ (policy : LookupCachePolicy) (inner : LookupCacheInner) (k : Text) (kind : LookupKind)
    (generation : ℕ) where
  -- The three ways in which a fetch of another generation may end leave the entries as they are.
  pub other_generation :
      inner.generation ≢ generation
      → (result : LoaderResult) (payload : Text) (notify stored_at now logged_at : ℕ)
      → ((finish_fetch policy inner k kind result generation stored_at now logged_at).entries
          ≡ inner.entries)
        × (resolve_persistent_cache_slot policy inner k kind payload generation notify stored_at now
            ≡ (false, inner))
        × (drop_fetch_guard inner k generation notify ≡ inner)
  unfolding finish_fetch resolve_persistent_cache_slot drop_fetch_guard owns_loading_slot
  other_generation h result payload notify stored_at now logged_at =
      (ground (arith, h), ground (arith, h), ground (arith, h))

generation-invalidate_all :
    (inner : LookupCacheInner) (now : ℕ)
    → inner.generation < u64_mod
    → (invalidate_all inner now).generation ≢ inner.generation
unfolding invalidate_all
generation-invalidate_all inner now h = omega arith

-- A fetch that was in flight when the cache was invalidated leaves it empty, however it ends.
pub invalidated_fetch :
    (policy : LookupCachePolicy) (inner : LookupCacheInner) (k : Text) (kind : LookupKind)
    (result : LoaderResult) (payload : Text) (at notify stored_at now logged_at : ℕ)
    → inner.generation < u64_mod
    → ((finish_fetch policy
          (invalidate_all inner at)
          k
          kind
          result
          inner.generation
          stored_at
          now
          logged_at).entries
        ≡ [])
      × ((resolve_persistent_cache_slot policy
            (invalidate_all inner at)
            k
            kind
            payload
            inner.generation
            notify
            stored_at
            now).1.entries
          ≡ [])
      × ((drop_fetch_guard (invalidate_all inner at) k inner.generation notify).entries ≡ [])
unfolding invalidate_all
invalidated_fetch policy inner k kind result payload at notify stored_at now logged_at h =
    let ends =
      other_generation policy (invalidate_all inner at) k kind inner.generation
        (generation-invalidate_all inner at h) result payload notify stored_at now logged_at in
    (
      ends.0,
      ap (λ (r : Bool × LookupCacheInner). r.1.entries) ends.1,
      ap (λ (r : LookupCacheInner). r.entries) ends.2,
    )
