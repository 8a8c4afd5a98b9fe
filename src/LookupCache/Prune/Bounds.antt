-- ===== src/LookupCache/Prune/Bounds.antt =====
-- lookup_cache.rs: what pruning guarantees of the cache that it leaves.
use ship_flow_tauri.Prelude.{
  ℕ, ◌-◌, ◌≤◌, ◌≡◌, refl, ◌∙◌, Text, some, true, List, text_eq, length, u64_max, arith, weight_of,
  length-sum_by,
}
use ship_flow_tauri.Prelude.HashMap
use ship_flow_tauri.Prelude.HashMap.{get-retain, retain-Distinct, keep_if}
use ship_flow_tauri.Prelude.HashMap.Measure.{sum_by-retain-le, sum_by-retain_eq}
use ship_flow_tauri.LookupCache.Entry.{LookupCacheSlot}
use ship_flow_tauri.LookupCache.Prune.{
  ReadyEntry, is_loading, is_kept, prune_entries, sort_by_access, ready_entries,
}
use ship_flow_tauri.LookupCache.Prune.Measures.{
  Entries, ready_count, ready_bytes, loading_count, bytes_weight, length-ready-loading,
  length-ready_entries, bytes-ready_entries, AllListed-ready_entries, DistinctKeys-ready_entries,
  sum_by-sort_by_access, All-sort_by_access, DistinctKeys-sort_by_access,
}
use ship_flow_tauri.LookupCache.Prune.Evict.{
  IsDescribed, evict_fits, loading_count-evict, evict-Distinct, evict-keeps, total_bytes_lem,
}

abbrev pub kept_entries : Entries → ℕ → Entries
kept_entries m now = HashMap.retain (is_kept now) m

abbrev pub eviction_order : Entries → ℕ → List ReadyEntry
eviction_order m now = sort_by_access (ready_entries (kept_entries m now))

pub kept-IsDescribed :
    (m : Entries) (now : ℕ)
    → HashMap.Distinct m
    → IsDescribed (kept_entries m now) (eviction_order m now)
kept-IsDescribed m now d =
    let kept = kept_entries m now in
    let distinct = retain-Distinct (is_kept now) m d in
    record {
      distinct = distinct;
      keys = DistinctKeys-sort_by_access _ (DistinctKeys-ready_entries kept distinct);
      listed = All-sort_by_access _ _ (AllListed-ready_entries kept distinct);
      counted = omega (
        arith,
        length-ready_entries kept,
        length-sum_by (ready_entries kept),
        length-sum_by (eviction_order m now),
        sum_by-sort_by_access (λ _. 1) (ready_entries kept),
      );
      weighed = omega (
        arith,
        bytes-ready_entries kept,
        sum_by-sort_by_access (λ (x : ReadyEntry). x.bytes) (ready_entries kept),
      );
    }

loading_count-kept : (m : Entries) (now : ℕ) → loading_count (kept_entries m now) ≡ loading_count m
loading_count-kept m now =
    sum_by-retain_eq (weight_of (λ (e : Text × LookupCacheSlot). is_loading e.1)) (is_kept now) m
      λ k v h. ground arith

module _ (m : Entries) (now max_entries max_bytes : ℕ) (distinct : HashMap.Distinct m) where
  pub prune-Distinct : HashMap.Distinct (prune_entries m now max_entries max_bytes)
  unfolding prune_entries
  prune-Distinct =
      evict-Distinct _ max_bytes (eviction_order m now) (kept_entries m now) _ _
        (kept-IsDescribed m now distinct).distinct

  pub loading_count-prune :
      loading_count (prune_entries m now max_entries max_bytes) ≡ loading_count m
  unfolding prune_entries
  loading_count-prune =
      loading_count-evict _ max_bytes (eviction_order m now) (kept_entries m now) _ _
        (kept-IsDescribed m now distinct)
      ∙ loading_count-kept m now

  -- After pruning, the ready entries fit beside the fetches in flight and their bytes fit the budget.
  -- The map has distinct keys, and the bytes before do not pass `usize::MAX`, at which the source's
  -- sum saturates.
  pub prune_fits :
      ready_bytes m ≤ u64_max
      → (ready_count (prune_entries m now max_entries max_bytes) ≤ max_entries - loading_count m)
        × (ready_bytes (prune_entries m now max_entries max_bytes) ≤ max_bytes)
  unfolding prune_entries
  prune_fits h =
      let described = kept-IsDescribed m now distinct in
      let fits =
        evict_fits (max_entries - loading_count (kept_entries m now)) max_bytes
          (eviction_order m now) (kept_entries m now) described refl
          (total_bytes_lem 0 (eviction_order m now)
              (omega (arith, described.weighed, sum_by-retain-le bytes_weight (is_kept now) m, h))
            ∙ omega arith) in
      (omega (arith, fits.0, loading_count-kept m now), fits.1)

  -- The whole cache fits its capacity if its fetches in flight do.
  pub prune-le-capacity :
      ready_bytes m ≤ u64_max
      → loading_count m ≤ max_entries
      → length (prune_entries m now max_entries max_bytes) ≤ max_entries
  prune-le-capacity h loads = omega (
    arith,
    length-ready-loading (prune_entries m now max_entries max_bytes),
    loading_count-prune,
    (prune_fits h).0,
  )

  pub prune-keeps :
      (k : Text) (slot : LookupCacheSlot)
      → HashMap.get k (prune_entries m now max_entries max_bytes) ≡ some slot
      → (HashMap.get k m ≡ some slot) × (is_kept now slot ≡ true)
  unfolding prune_entries
  prune-keeps k slot h = ground (
    arith,
    evict-keeps _ max_bytes (eviction_order m now) (kept_entries m now) _ _ k slot h,
    get-retain (is_kept now) k m distinct,
  )
