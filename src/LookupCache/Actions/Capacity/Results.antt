-- ===== src/LookupCache/Actions/Capacity/Results.antt =====
-- lookup_cache.rs: results, cancelled fetches, invalidation, configuration and the limits.
use ship_flow_tauri.Prelude.{
  ℕ, ◌≤◌, ◌≡◌, Text, Option, none, some, false, ◌==◌, text_eq, nat_eq, leb, ltb, length, isize_max,
  sum_by_nil, Bool-cases, inl, inr, arith,
}
use ship_flow_tauri.Core.Model.{LookupKind}
use ship_flow_tauri.LookupCache.Entry.{
  LookupCachePolicy, CachedLookupEntry, estimated_bytes, success_entry,
  max_in_memory_lookup_cache_entry_bytes, error_entry, from_tracking_error,
}
use ship_flow_tauri.LookupCache.Metrics.Sums.{record_invalidation-IsBalanced}
use ship_flow_tauri.LookupCache.Prune.{LookupCacheInner}
use ship_flow_tauri.LookupCache.Prune.Measures.{bytes_weight}
use ship_flow_tauri.LookupCache.Actions.{
  drop_fetch_guard, resolve_persistent_cache_slot, LoaderResult, finish_fetch, store_entry,
  cached_entry_of, remove_entry, owns_loading_slot, invalidate_all,
}
use ship_flow_tauri.LookupCache.Actions.Capacity.{
  IsWithin, with_event-IsWithin, insert_ready-IsWithin, loading_count-insert_ready,
  remove_key-IsWithin,
}

-- A Rust string has at most `isize::MAX` bytes.
abbrev pub ErrorFits : LoaderResult → Type 0
ErrorFits (LoaderResult.loaded payload) = Unit
ErrorFits (LoaderResult.non_cacheable e) = Unit
ErrorFits (LoaderResult.cacheable e) = length (from_tracking_error e).message ≤ isize_max

abbrev FitsInMemory : Option CachedLookupEntry → Type 0
FitsInMemory none = Unit
FitsInMemory (some e) = estimated_bytes e ≤ isize_max

success_entry_fits :
    (policy : LookupCachePolicy) (kind : LookupKind) (payload : Text) (stored_at : ℕ)
    → ltb max_in_memory_lookup_cache_entry_bytes (length payload) ≡ false
    → estimated_bytes (success_entry policy kind payload stored_at) ≤ isize_max
unfolding estimated_bytes success_entry
success_entry_fits policy kind payload stored_at h = ground arith

cached_entry_fits :
    (policy : LookupCachePolicy) (kind : LookupKind) (result : LoaderResult) (stored_at : ℕ)
    → ErrorFits result
    → FitsInMemory (cached_entry_of policy kind result stored_at)
unfolding cached_entry_of estimated_bytes success_entry error_entry
cached_entry_fits policy kind (LoaderResult.loaded none) stored_at h = tt
cached_entry_fits policy kind (LoaderResult.loaded (some payload)) stored_at h =
    elim (Bool-cases (leb (length payload) max_in_memory_lookup_cache_entry_bytes)) [
      | inl small ↦ rw small (ground arith)
      | inr large ↦ rw large tt
    ]
cached_entry_fits policy kind (LoaderResult.cacheable e) stored_at h = h
cached_entry_fits policy kind (LoaderResult.non_cacheable e) stored_at h = tt

-- The end of a fetch, stored or not, keeps the cache within its limits.
module _ (policy : LookupCachePolicy) (inner : LookupCacheInner) (k : Text)
    (kind : LookupKind) where
  store_entry-IsWithin :
      (entry : Option CachedLookupEntry) (now : ℕ)
      → FitsInMemory entry
      → IsWithin inner
      → IsWithin (store_entry inner k entry now)
  unfolding store_entry
  store_entry-IsWithin none now size w = remove_key-IsWithin inner k w
  store_entry-IsWithin (some e) now size w =
      insert_ready-IsWithin inner now k e size w (loading_count-insert_ready inner k e w)

  pub finish_fetch-IsWithin :
      (result : LoaderResult) (generation stored_at now logged_at : ℕ)
      → ErrorFits result
      → IsWithin inner
      → IsWithin (finish_fetch policy inner k kind result generation stored_at now logged_at)
  unfolding finish_fetch
  finish_fetch-IsWithin result generation stored_at now logged_at fits w =
      elim (Bool-cases (inner.generation == generation)) [
        | inl current ↦ rw current (
            with_event-IsWithin _ kind _ logged_at (
              store_entry-IsWithin (cached_entry_of policy kind result stored_at) now
                (cached_entry_fits policy kind result stored_at fits) w))
        | inr stale ↦ rw stale (with_event-IsWithin inner kind _ logged_at w)
      ]

  pub resolve_persistent-IsWithin :
      (payload : Text) (generation notify stored_at now : ℕ)
      → IsWithin inner
      → IsWithin
          (resolve_persistent_cache_slot policy inner k kind payload generation notify stored_at
            now).1
  unfolding resolve_persistent_cache_slot
  resolve_persistent-IsWithin payload generation notify stored_at now w =
      elim (Bool-cases (owns_loading_slot inner k generation notify)) [
        | inl owned ↦
            elim (Bool-cases (ltb max_in_memory_lookup_cache_entry_bytes (length payload))) [
              | inl large ↦ rw (owned, large) (remove_key-IsWithin inner k w)
              | inr small ↦
                  rw (owned, small)
                    (insert_ready-IsWithin inner now k _
                      (success_entry_fits policy kind payload stored_at small) w
                      (loading_count-insert_ready inner k _ w))
            ]
        | inr lost ↦ rw lost w
      ]

pub drop_fetch_guard-IsWithin :
    (inner : LookupCacheInner) (k : Text) (generation notify : ℕ)
    → IsWithin inner
    → IsWithin (drop_fetch_guard inner k generation notify)
unfolding drop_fetch_guard
drop_fetch_guard-IsWithin inner k generation notify w =
    elim (Bool-cases (owns_loading_slot inner k generation notify)) [
      | inl owned ↦ rw owned (remove_key-IsWithin inner k w)
      | inr lost ↦ rw lost w
    ]

pub remove_entry-IsWithin :
    (inner : LookupCacheInner) (k : Text) → IsWithin inner → IsWithin (remove_entry inner k)
unfolding remove_entry
remove_entry-IsWithin inner k w = remove_key-IsWithin inner k w

pub invalidate_all-IsWithin :
    (inner : LookupCacheInner) (now : ℕ) → IsWithin inner → IsWithin (invalidate_all inner now)
unfolding invalidate_all
invalidate_all-IsWithin inner now w = record {
  distinct = tt;
  entries_fit = omega arith;
  bytes_fit = omega (arith, sum_by_nil bytes_weight);
  addressable = w.addressable;
  balanced = record_invalidation-IsBalanced inner.metrics now w.balanced;
}
