-- ===== src/LookupCache/Prune.antt =====
-- lookup_cache.rs: the cache behind its mutex, its snapshot, and pruning: expired entries go, then
-- the least recently used ones until the limits on entries and bytes hold. `sort_unstable_by_key`
-- is an insertion sort; which order entries of equal age take follows the map's order, any order.
pub mod Measures
pub mod Evict
pub mod Bounds
pub mod Recency
use ship_flow_tauri.Prelude.{
  ℕ, ◌+◌, ◌*◌, Text, List, [], ◌∷◌, Bool, true, false, not, leb, ◌&&◌, if◌then◌else◌, length,
  is_some, count, text_eq, saturating_add, saturating_sub,
}
use ship_flow_tauri.Prelude.HashMap
use ship_flow_tauri.Prelude.HashMap.{HashMap}
use ship_flow_tauri.LookupCache.Entry.{
  LookupCacheSlot, ready, loading, is_expired, estimated_bytes, max_in_memory_lookup_cache_entries,
  max_in_memory_lookup_cache_bytes,
}
use ship_flow_tauri.LookupCache.Metrics.{LookupCacheMetrics, empty_metrics}

pub record LookupCacheInner : Type 0 where
  pub max_entries : ℕ
  pub max_bytes : ℕ
  pub entries : HashMap Text LookupCacheSlot
  pub generation : ℕ
  pub metrics : LookupCacheMetrics

abbrev pub default_inner : LookupCacheInner
default_inner = record {
  max_entries = max_in_memory_lookup_cache_entries;
  max_bytes = max_in_memory_lookup_cache_bytes;
  entries = [];
  generation = 0;
  metrics = empty_metrics;
}

pub record LookupCacheSnapshot : Type 0 where
  pub ready_count : ℕ
  pub loading_count : ℕ
  pub capacity : ℕ
  pub bytes : ℕ
  pub byte_capacity : ℕ

snapshot_slot : LookupCacheSnapshot → LookupCacheSlot → LookupCacheSnapshot
snapshot_slot s (ready entry) = record s {
  ready_count = s.ready_count + 1;
  bytes = saturating_add s.bytes (estimated_bytes entry);
}
snapshot_slot s (loading n) = record s { loading_count = s.loading_count + 1 }

snapshot_slots : LookupCacheSnapshot → HashMap Text LookupCacheSlot → LookupCacheSnapshot
snapshot_slots s [] = s
snapshot_slots s ((k, slot) ∷ rest) = snapshot_slots (snapshot_slot s slot) rest

unfoldable pub snapshot_lookup_cache : LookupCacheInner → LookupCacheSnapshot
unfolding snapshot_slots snapshot_slot
snapshot_lookup_cache inner =
    snapshot_slots
      (record {
        ready_count = 0;
        loading_count = 0;
        capacity = inner.max_entries;
        bytes = 0;
        byte_capacity = inner.max_bytes;
      })
      inner.entries

abbrev pub is_loading : LookupCacheSlot → Bool
is_loading (ready entry) = false
is_loading (loading n) = true

-- The `retain` of the first pass.
abbrev pub is_kept : ℕ → LookupCacheSlot → Bool
is_kept now (ready entry) = not (is_expired entry now)
is_kept now (loading n) = true

pub record ReadyEntry : Type 0 where
  pub cache_key : Text
  pub last_accessed_at : ℕ
  pub bytes : ℕ

unfoldable pub ready_entries : HashMap Text LookupCacheSlot → List ReadyEntry
ready_entries [] = []
ready_entries ((key, ready entry) ∷ rest) =
    record {
      cache_key = key;
      last_accessed_at = entry.last_accessed_at;
      bytes = estimated_bytes entry;
    }
    ∷ ready_entries rest
ready_entries ((key, loading n) ∷ rest) = ready_entries rest

unfoldable pub insert_by_access : ReadyEntry → List ReadyEntry → List ReadyEntry
insert_by_access x [] = x ∷ []
insert_by_access x (y ∷ ys) =
    let rest = y ∷ insert_by_access x ys in
    if leb x.last_accessed_at y.last_accessed_at then x ∷ y ∷ ys else rest

unfoldable pub sort_by_access : List ReadyEntry → List ReadyEntry
sort_by_access [] = []
sort_by_access (x ∷ xs) = insert_by_access x (sort_by_access xs)

unfoldable pub total_bytes : ℕ → List ReadyEntry → ℕ
total_bytes total [] = total
total_bytes total (x ∷ xs) = total_bytes (saturating_add total x.bytes) xs

-- The eviction loop, over the entries from the least recently used one on.
unfoldable pub evict :
    ℕ → ℕ → ℕ → ℕ → List ReadyEntry → HashMap Text LookupCacheSlot → HashMap Text LookupCacheSlot
evict allowed_ready max_bytes ready_count ready_bytes [] entries = entries
evict allowed_ready max_bytes ready_count ready_bytes (x ∷ xs) entries =
    let removed = is_some (HashMap.get x.cache_key entries) in
    let rest =
      evict allowed_ready max_bytes (if removed then saturating_sub ready_count 1 else ready_count)
        (if removed then saturating_sub ready_bytes x.bytes else ready_bytes) xs
        (HashMap.remove x.cache_key entries) in
    if leb ready_count allowed_ready && leb ready_bytes max_bytes then entries else rest

unfoldable pub prune_entries :
    HashMap Text LookupCacheSlot → ℕ → ℕ → ℕ → HashMap Text LookupCacheSlot
prune_entries entries now max_entries max_bytes =
    let kept = HashMap.retain (is_kept now) entries in
    let loading_count = count (λ (e : Text × LookupCacheSlot). is_loading e.1) kept in
    let sorted = sort_by_access (ready_entries kept) in
    evict (saturating_sub max_entries loading_count) max_bytes (length sorted)
      (total_bytes 0 sorted) sorted kept

-- The cache after pruning, and how many entries went.
unfoldable pub prune_lookup_cache_with_limits : LookupCacheInner → ℕ → ℕ → ℕ → LookupCacheInner × ℕ
prune_lookup_cache_with_limits inner now max_entries max_bytes =
    let pruned = prune_entries inner.entries now max_entries max_bytes in
    (record inner { entries = pruned }, saturating_sub (length inner.entries) (length pruned))

unfoldable pub prune_lookup_cache : LookupCacheInner → ℕ → LookupCacheInner × ℕ
unfolding prune_lookup_cache_with_limits
prune_lookup_cache inner now =
    prune_lookup_cache_with_limits inner now inner.max_entries inner.max_bytes
