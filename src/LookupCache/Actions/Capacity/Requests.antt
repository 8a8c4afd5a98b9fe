-- ===== src/LookupCache/Actions/Capacity/Requests.antt =====
-- lookup_cache.rs, `next_action`: requests and the limits of the cache.
use ship_flow_tauri.Prelude.{
  ℕ, ◌≡◌, refl, Text, Option, none, some, Bool, false, not, text_eq, nat_eq, if◌then◌else◌, leb,
  ◌&&◌, length, Bool-cases, inl, inr, arith,
}
use ship_flow_tauri.Prelude.HashMap
use ship_flow_tauri.Prelude.HashMap.{HashMap, insert-Distinct, remove-Distinct}
use ship_flow_tauri.Prelude.HashMap.Measure.{
  sum_by-insert-some, sum_by-insert-le, length-insert-le, length-insert-some,
}
use ship_flow_tauri.Core.Model.{LookupKind}
use ship_flow_tauri.LookupCache.Entry.{
  CachedLookupEntry, LookupCacheSlot, ready, loading, estimated_bytes, is_expired,
}
use ship_flow_tauri.LookupCache.Metrics.{LookupCacheMetricEvent}
use ship_flow_tauri.LookupCache.Prune.{LookupCacheInner, prune_lookup_cache}
use ship_flow_tauri.LookupCache.Prune.Measures.{bytes_weight, length-ready-loading}
use ship_flow_tauri.LookupCache.Actions.{
  next_action, with_event, hit_entry, replace_entry, miss_entry, slot_action,
}
use ship_flow_tauri.LookupCache.Actions.Capacity.{
  IsWithin, prune-IsWithin, prune_lookup_cache-IsWithin, with_event-IsWithin,
}

module _ (inner : LookupCacheInner) (k : Text) (kind : LookupKind) (w : IsWithin inner) where
  hit-IsWithin :
      (e : CachedLookupEntry) (now logged_at : ℕ)
      → HashMap.get k inner.entries ≡ some (ready e)
      → IsWithin (hit_entry inner k kind e now logged_at).1
  unfolding hit_entry estimated_bytes
  hit-IsWithin e now logged_at found =
      let touched : CachedLookupEntry = record e { last_accessed_at = now } in
      with_event-IsWithin _ kind LookupCacheMetricEvent.hit logged_at (record {
        distinct = insert-Distinct k (ready touched) inner.entries w.distinct;
        entries_fit = omega (
          arith,
          length-insert-some k (ready e) (ready touched) inner.entries w.distinct found,
          w.entries_fit,
        );
        bytes_fit = omega (
          arith,
          sum_by-insert-some bytes_weight k (ready e) (ready touched) inner.entries w.distinct
              found,
          w.bytes_fit,
        );
        addressable = w.addressable;
        balanced = w.balanced;
      })

  replace-IsWithin :
      (e : CachedLookupEntry) (force_refresh : Bool) (notify now logged_at : ℕ)
      → HashMap.get k inner.entries ≡ some (ready e)
      → IsWithin (replace_entry inner k kind force_refresh notify now logged_at).1
  unfolding replace_entry
  replace-IsWithin e force_refresh notify now logged_at found =
      let event : LookupCacheMetricEvent =
        if force_refresh then LookupCacheMetricEvent.bypass else LookupCacheMetricEvent.stale in
      let counted = with_event-IsWithin inner kind event logged_at w in
      prune-IsWithin
        (record (with_event inner kind event logged_at) {
          entries = HashMap.insert k (loading notify) inner.entries;
        })
        now (insert-Distinct k (loading notify) inner.entries w.distinct)
        (omega (
          arith,
          length-insert-some k (ready e) (loading notify) inner.entries w.distinct found,
          length-ready-loading (HashMap.insert k (loading notify) inner.entries),
          w.entries_fit,
        ))
        (omega (
          arith,
          sum_by-insert-le bytes_weight k (loading notify) inner.entries,
          w.bytes_fit,
          w.addressable,
        ))
        w.addressable counted.balanced

  insert_loading-IsWithin :
      (notify : ℕ)
      → leb inner.max_entries (length inner.entries) ≡ false
      → IsWithin (record inner { entries = HashMap.insert k (loading notify) inner.entries })
  insert_loading-IsWithin notify room = record {
    distinct = insert-Distinct k (loading notify) inner.entries w.distinct;
    entries_fit = ground (arith, length-insert-le k (loading notify) inner.entries, room);
    bytes_fit =
        omega (arith, sum_by-insert-le bytes_weight k (loading notify) inner.entries, w.bytes_fit);
    addressable = w.addressable;
    balanced = w.balanced;
  }

miss-IsWithin :
    (inner : LookupCacheInner) (k : Text) (kind : LookupKind) (notify now logged_at : ℕ)
    → IsWithin inner
    → IsWithin (miss_entry inner k kind notify now logged_at).1
unfolding miss_entry
miss-IsWithin inner k kind notify now logged_at w =
    let counted = with_event inner kind LookupCacheMetricEvent.miss logged_at in
    let pruned = (prune_lookup_cache counted now).0 in
    let within =
      prune_lookup_cache-IsWithin counted now
        (with_event-IsWithin inner kind LookupCacheMetricEvent.miss logged_at w) in
    elim (Bool-cases (leb pruned.max_entries (length pruned.entries))) [
      | inl full ↦ rw full within
      | inr room ↦ rw room (insert_loading-IsWithin pruned k kind within notify room)
    ]

-- A request, whatever it finds, keeps the cache within its limits.
pub next_action-IsWithin :
    (inner : LookupCacheInner) (k : Text) (kind : LookupKind) (force_refresh : Bool)
    (notify now logged_at : ℕ)
    → IsWithin inner
    → IsWithin (next_action inner k kind force_refresh notify now logged_at).1
unfolding next_action
next_action-IsWithin inner k kind force_refresh notify now logged_at w =
    by_slot (HashMap.get k inner.entries) refl
  where
    by_slot :
        (slot : Option LookupCacheSlot)
        → HashMap.get k inner.entries ≡ slot
        → IsWithin (slot_action slot inner k kind force_refresh notify now logged_at).1
    by_slot none found = miss-IsWithin inner k kind notify now logged_at w
    by_slot (some (loading current)) found =
        with_event-IsWithin inner kind LookupCacheMetricEvent.coalesced logged_at w
    by_slot (some (ready e)) found =
        elim (Bool-cases (not force_refresh && not (is_expired e now))) [
          | inl fresh ↦ rw fresh (hit-IsWithin inner k kind w e now logged_at found)
          | inr old ↦
              rw old (replace-IsWithin inner k kind w e force_refresh notify now logged_at found)
        ]
