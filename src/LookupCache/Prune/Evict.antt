-- ===== src/LookupCache/Prune/Evict.antt =====
-- lookup_cache.rs: the eviction loop, over a list that describes the ready slots of the map.
use ship_flow_tauri.Prelude.{
  ℕ, ◌+◌, ◌-◌, ◌≤◌, ◌≡◌, refl, ◌∙◌, Text, Option, none, some, true, List, [], ◌∷◌, text_eq,
  if◌then◌else◌, leb, length, sum_by, sum_by_cons, sum_by_nil, saturating_add, u64_max, ◌&&◌,
  is_some, Bool-cases, inl, inr, arith, weight_of,
}
use ship_flow_tauri.Prelude.HashMap
use ship_flow_tauri.Prelude.HashMap.{get-remove, remove-Distinct}
use ship_flow_tauri.Prelude.HashMap.Measure.{sum_by-remove}
use ship_flow_tauri.LookupCache.Entry.{
  LookupCacheSlot, CachedLookupEntry, ready, loading, estimated_bytes,
}
use ship_flow_tauri.LookupCache.Prune.{ReadyEntry, evict, total_bytes, is_loading}
use ship_flow_tauri.LookupCache.Prune.Measures.{
  Entries, ready_count, ready_bytes, loading_count, ready_weight, bytes_weight, listed_bytes,
  IsListed, AllListed, Misses, DistinctKeys,
}

-- A map whose ready slots are described by a list, without repetition.
pub record IsDescribed (m : Entries) (l : List ReadyEntry) : Type 0 where
  pub distinct : HashMap.Distinct m
  pub keys : DistinctKeys l
  pub listed : AllListed m l
  pub counted : ready_count m ≡ length l
  pub weighed : ready_bytes m ≡ listed_bytes l

-- The slot behind an element of the list.
slot_of_listed :
    (m : Entries) (x : ReadyEntry)
    → IsListed m x
    → (entry : CachedLookupEntry) × (HashMap.get x.cache_key m ≡ some (ready entry))
      × (estimated_bytes entry ≡ x.bytes)
slot_of_listed m x h = slot (HashMap.get x.cache_key m) refl
  where
    slot :
        (o : Option LookupCacheSlot)
        → HashMap.get x.cache_key m ≡ o
        → (entry : CachedLookupEntry) × (HashMap.get x.cache_key m ≡ some (ready entry))
          × (estimated_bytes entry ≡ x.bytes)
    slot none e = ground (arith, h, e)
    slot (some (loading n)) e = ground (arith, h, e)
    slot (some (ready entry)) e = (entry, e, ground (arith, h, e))

AllListed-remove :
    (m : Entries) (k : Text) (l : List ReadyEntry)
    → Misses k l
    → AllListed m l
    → AllListed (HashMap.remove k m) l
AllListed-remove m k [] h a = tt
AllListed-remove m k (x ∷ xs) h a =
    (ground (arith, get-remove k x.cache_key m), AllListed-remove m k xs h.1 a.1)

-- One round of the loop removes the slot that the head describes.
pub IsDescribed-remove :
    (m : Entries) (x : ReadyEntry) (l : List ReadyEntry)
    → IsDescribed m (x ∷ l)
    → IsDescribed (HashMap.remove x.cache_key m) l
IsDescribed-remove m x l d =
    let (entry, found, size) = slot_of_listed m x d.listed.0 in
    record {
      distinct = remove-Distinct x.cache_key m d.distinct;
      keys = d.keys.1;
      listed = AllListed-remove m x.cache_key l d.keys.0 d.listed.1;
      counted = omega (
        arith,
        d.counted,
        sum_by-remove ready_weight x.cache_key (ready entry) m d.distinct found,
      );
      weighed = omega (
        arith,
        d.weighed,
        size,
        sum_by_cons (λ (y : ReadyEntry). y.bytes) x l,
        sum_by-remove bytes_weight x.cache_key (ready entry) m d.distinct found,
      );
    }

pub head-is_some :
    (m : Entries) (x : ReadyEntry) → IsListed m x → is_some (HashMap.get x.cache_key m) ≡ true
head-is_some m x h = let (entry, found, size) = slot_of_listed m x h in rw found

-- The loop ends with both limits met.
pub evict_fits :
    (a b : ℕ) (l : List ReadyEntry) (m : Entries) {n s : ℕ}
    → IsDescribed m l
    → n ≡ length l
    → s ≡ listed_bytes l
    → (ready_count (evict a b n s l m) ≤ a) × (ready_bytes (evict a b n s l m) ≤ b)
unfolding evict
evict_fits a b [] m d p q =
    (omega (arith, d.counted), omega (arith, d.weighed, sum_by_nil (λ (y : ReadyEntry). y.bytes)))
evict_fits a b (x ∷ l) m {n} {s} d p q = elim (Bool-cases (leb n a && leb s b)) [
  | inl fits ↦ rw fits (ground (arith, d.counted, d.weighed))
  | inr over ↦
      rw (over, head-is_some m x d.listed.0)
        (evict_fits a b l _ (IsDescribed-remove m x l d) (omega arith)
          (omega (arith, sum_by_cons (λ (y : ReadyEntry). y.bytes) x l)))
]

loading_count-remove :
    (m : Entries) (x : ReadyEntry)
    → HashMap.Distinct m
    → IsListed m x
    → loading_count (HashMap.remove x.cache_key m) ≡ loading_count m
loading_count-remove m x d h =
    let (entry, found, size) = slot_of_listed m x h in
    omega (
      arith,
      sum_by-remove (weight_of (λ (e : Text × LookupCacheSlot). is_loading e.1)) x.cache_key
          (ready entry) m d found,
    )

-- Fetches in flight are never evicted.
pub loading_count-evict :
    (a b : ℕ) (l : List ReadyEntry) (m : Entries) (n s : ℕ)
    → IsDescribed m l
    → loading_count (evict a b n s l m) ≡ loading_count m
unfolding evict
loading_count-evict a b [] m n s d = refl
loading_count-evict a b (x ∷ l) m n s d = elim (Bool-cases (leb n a && leb s b)) [
  | inl fits ↦ rw fits refl
  | inr over ↦ rw over (
      loading_count-evict a b l _ _ _ (IsDescribed-remove m x l d)
      ∙ loading_count-remove m x d.distinct d.listed.0)
]

pub evict-Distinct :
    (a b : ℕ) (l : List ReadyEntry) (m : Entries) (n s : ℕ)
    → HashMap.Distinct m
    → HashMap.Distinct (evict a b n s l m)
unfolding evict
evict-Distinct a b [] m n s d = d
evict-Distinct a b (x ∷ l) m n s d = elim (Bool-cases (leb n a && leb s b)) [
  | inl fits ↦ rw fits d
  | inr over ↦ rw over (evict-Distinct a b l _ _ _ (remove-Distinct x.cache_key m d))
]

-- A slot of the result was there before, unchanged.
pub evict-keeps :
    (a b : ℕ) (l : List ReadyEntry) (m : Entries) (n s : ℕ) (k : Text) (slot : LookupCacheSlot)
    → HashMap.get k (evict a b n s l m) ≡ some slot
    → HashMap.get k m ≡ some slot
unfolding evict
evict-keeps a b [] m n s k slot h = h
evict-keeps a b (x ∷ l) m n s k slot h = elim (Bool-cases (leb n a && leb s b)) [
  | inl fits ↦ ground (arith, h, fits)
  | inr over ↦ ground (
    arith,
    get-remove x.cache_key k m,
    evict-keeps a b l (HashMap.remove x.cache_key m)
        (if is_some (HashMap.get x.cache_key m) then n - 1 else n)
        (if is_some (HashMap.get x.cache_key m) then s - x.bytes else s) k slot,
  )
]

pub total_bytes_lem :
    (t : ℕ) (l : List ReadyEntry)
    → t + listed_bytes l ≤ u64_max
    → total_bytes t l ≡ t + listed_bytes l
unfolding total_bytes sum_by
total_bytes_lem t [] h = omega arith
total_bytes_lem t (x ∷ l) h = omega (arith, total_bytes_lem (saturating_add t x.bytes) l)
