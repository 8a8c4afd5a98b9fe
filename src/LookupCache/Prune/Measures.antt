-- ===== src/LookupCache/Prune/Measures.antt =====
-- lookup_cache.rs: the sizes that pruning counts, and the list of ready entries that it sorts.
use ship_flow_tauri.Prelude.{
  ℕ, ◌+◌, ◌≡◌, refl, Text, Option, none, some, true, false, List, [], ◌∷◌, ◌==◌, text_eq,
  text_beq_iff, text_ne_sym, if◌then◌else◌, leb, length, sum_by, count, All, arith,
}
use ship_flow_tauri.Prelude.HashMap
use ship_flow_tauri.Prelude.HashMap.{HashMap}
use ship_flow_tauri.LookupCache.Entry.{LookupCacheSlot, ready, loading, estimated_bytes}
use ship_flow_tauri.LookupCache.Prune.{
  ReadyEntry, is_loading, ready_entries, insert_by_access, sort_by_access,
}

abbrev pub Entries : Type 0
Entries = HashMap Text LookupCacheSlot

abbrev pub ready_weight : Text × LookupCacheSlot → ℕ
ready_weight (k, ready entry) = 1
ready_weight (k, loading n) = 0

abbrev pub bytes_weight : Text × LookupCacheSlot → ℕ
bytes_weight (k, ready entry) = estimated_bytes entry
bytes_weight (k, loading n) = 0

abbrev pub ready_count : Entries → ℕ
ready_count m = sum_by ready_weight m

abbrev pub ready_bytes : Entries → ℕ
ready_bytes m = sum_by bytes_weight m

abbrev pub loading_count : Entries → ℕ
loading_count m = count (λ (e : Text × LookupCacheSlot). is_loading e.1) m

abbrev pub listed_bytes : List ReadyEntry → ℕ
listed_bytes l = sum_by (λ (x : ReadyEntry). x.bytes) l

pub length-ready-loading : (m : Entries) → length m ≡ ready_count m + loading_count m
unfolding sum_by
length-ready-loading [] = refl
length-ready-loading ((k, ready entry) ∷ m) = omega (arith, length-ready-loading m)
length-ready-loading ((k, loading n) ∷ m) = omega (arith, length-ready-loading m)

pub length-ready_entries : (m : Entries) → length (ready_entries m) ≡ ready_count m
unfolding ready_entries sum_by
length-ready_entries [] = refl
length-ready_entries ((k, ready entry) ∷ m) = omega (arith, length-ready_entries m)
length-ready_entries ((k, loading n) ∷ m) = omega (arith, length-ready_entries m)

pub bytes-ready_entries : (m : Entries) → listed_bytes (ready_entries m) ≡ ready_bytes m
unfolding ready_entries sum_by
bytes-ready_entries [] = refl
bytes-ready_entries ((k, ready entry) ∷ m) = omega (arith, bytes-ready_entries m)
bytes-ready_entries ((k, loading n) ∷ m) = omega (arith, bytes-ready_entries m)

-- What the list says of a slot.
abbrev pub entry_of : Text → Option LookupCacheSlot → Option ReadyEntry
entry_of k none = none
entry_of k (some (loading n)) = none
entry_of k (some (ready entry)) = some (record {
  cache_key = k;
  last_accessed_at = entry.last_accessed_at;
  bytes = estimated_bytes entry;
})

-- An element of the list describes the slot at its key.
abbrev pub IsListed : Entries → ReadyEntry → Type 0
IsListed m x = entry_of x.cache_key (HashMap.get x.cache_key m) ≡ some x

abbrev pub AllListed : Entries → List ReadyEntry → Type 0
AllListed m l = All (IsListed m) l

abbrev pub Misses : Text → List ReadyEntry → Type 0
Misses k l = All (λ (y : ReadyEntry). (k == y.cache_key) ≡ false) l

abbrev pub DistinctKeys : List ReadyEntry → Type 0
DistinctKeys [] = Unit
DistinctKeys (x ∷ xs) = Misses x.cache_key xs × DistinctKeys xs

AllListed-cons :
    (k : Text) (v : LookupCacheSlot) (m : Entries) (l : List ReadyEntry)
    → HashMap.get k m ≡ none
    → AllListed m l
    → AllListed ((k, v) ∷ m) l
unfolding HashMap.get
AllListed-cons k v m [] h a = tt
AllListed-cons k v m (x ∷ xs) h a =
    (ground (arith, text_beq_iff k x.cache_key), AllListed-cons k v m xs h a.1)

pub AllListed-ready_entries : (m : Entries) → HashMap.Distinct m → AllListed m (ready_entries m)
unfolding ready_entries HashMap.get
AllListed-ready_entries [] d = tt
AllListed-ready_entries ((k, ready entry) ∷ m) d = (
  ground (arith, text_beq_iff k k),
  AllListed-cons k (ready entry) m _ d.0 (AllListed-ready_entries m d.1),
)
AllListed-ready_entries ((k, loading n) ∷ m) d =
    AllListed-cons k (loading n) m _ d.0 (AllListed-ready_entries m d.1)

Misses-ready_entries :
    (k : Text) (m : Entries) → HashMap.get k m ≡ none → Misses k (ready_entries m)
unfolding ready_entries HashMap.get
Misses-ready_entries k [] h = tt
Misses-ready_entries k ((j, ready entry) ∷ m) h =
    ground (arith, Misses-ready_entries k m, text_beq_iff k j, text_beq_iff j k)
Misses-ready_entries k ((j, loading n) ∷ m) h = ground (arith, Misses-ready_entries k m)

pub DistinctKeys-ready_entries : (m : Entries) → HashMap.Distinct m → DistinctKeys (ready_entries m)
unfolding ready_entries
DistinctKeys-ready_entries [] d = tt
DistinctKeys-ready_entries ((k, ready entry) ∷ m) d =
    (Misses-ready_entries k m d.0, DistinctKeys-ready_entries m d.1)
DistinctKeys-ready_entries ((k, loading n) ∷ m) d = DistinctKeys-ready_entries m d.1

-- Sorting keeps weighted sums, properties of the elements and the distinctness of keys.
sum_by-insert_by_access :
    (w : ReadyEntry → ℕ) (x : ReadyEntry) (l : List ReadyEntry)
    → sum_by w (insert_by_access x l) ≡ w x + sum_by w l
unfolding insert_by_access sum_by
sum_by-insert_by_access w x [] = refl
sum_by-insert_by_access w x (y ∷ ys) = ground (arith, sum_by-insert_by_access w x ys)

pub sum_by-sort_by_access :
    (w : ReadyEntry → ℕ) (l : List ReadyEntry) → sum_by w (sort_by_access l) ≡ sum_by w l
unfolding sort_by_access sum_by
sum_by-sort_by_access w [] = refl
sum_by-sort_by_access w (x ∷ xs) =
    omega (arith, sum_by-insert_by_access w x (sort_by_access xs), sum_by-sort_by_access w xs)

All-insert_by_access :
    (P : ReadyEntry → Type 0) (x : ReadyEntry) (l : List ReadyEntry)
    → P x
    → All P l
    → All P (insert_by_access x l)
unfolding insert_by_access
All-insert_by_access P x [] px a = (px, tt)
All-insert_by_access P x (y ∷ ys) px a =
    elim (leb x.last_accessed_at y.last_accessed_at)
      as (λ b. All P (if b then x ∷ y ∷ ys else y ∷ insert_by_access x ys)) [
        | true ↦ (px, a)
        | false ↦ (a.0, All-insert_by_access P x ys px a.1)
      ]

pub All-sort_by_access :
    (P : ReadyEntry → Type 0) (l : List ReadyEntry) → All P l → All P (sort_by_access l)
unfolding sort_by_access
All-sort_by_access P [] a = tt
All-sort_by_access P (x ∷ xs) a =
    All-insert_by_access P x (sort_by_access xs) a.0 (All-sort_by_access P xs a.1)

DistinctKeys-insert_by_access :
    (x : ReadyEntry) (l : List ReadyEntry)
    → Misses x.cache_key l
    → DistinctKeys l
    → DistinctKeys (insert_by_access x l)
unfolding insert_by_access
DistinctKeys-insert_by_access x [] h d = (tt, tt)
DistinctKeys-insert_by_access x (y ∷ ys) h d =
    elim (leb x.last_accessed_at y.last_accessed_at)
      as (λ b. DistinctKeys (if b then x ∷ y ∷ ys else y ∷ insert_by_access x ys)) [
        | true ↦ (h, d)
        | false ↦ (
          All-insert_by_access _ x ys (text_ne_sym x.cache_key y.cache_key h.0) d.0,
          DistinctKeys-insert_by_access x ys h.1 d.1,
        )
      ]

pub DistinctKeys-sort_by_access :
    (l : List ReadyEntry) → DistinctKeys l → DistinctKeys (sort_by_access l)
unfolding sort_by_access
DistinctKeys-sort_by_access [] d = tt
DistinctKeys-sort_by_access (x ∷ xs) d =
    DistinctKeys-insert_by_access x (sort_by_access xs) (All-sort_by_access _ xs d.0)
      (DistinctKeys-sort_by_access xs d.1)
