-- ===== src/LookupCache/Prune/Recency.antt =====
-- lookup_cache.rs: the order of access in which pruning evicts.
use ship_flow_tauri.Prelude.{
  ℕ, ◌≤◌, ◌≡◌, refl, ◌∙◌, Text, Option, none, some, false, List, [], ◌∷◌, ◌==◌, text_eq,
  text_beq_iff, if◌then◌else◌, leb, ◌&&◌, Bool-cases, inl, inr, All, arith,
}
use ship_flow_tauri.Prelude.HashMap
use ship_flow_tauri.Prelude.HashMap.{get-remove, get-retain}
use ship_flow_tauri.LookupCache.Entry.{CachedLookupEntry, ready, loading, is_expired}
use ship_flow_tauri.LookupCache.Prune.{
  ReadyEntry, evict, is_kept, prune_entries, ready_entries, insert_by_access, sort_by_access,
}
use ship_flow_tauri.LookupCache.Prune.Measures.{
  Entries, Misses, DistinctKeys, DistinctKeys-ready_entries, All-sort_by_access,
}
use ship_flow_tauri.LookupCache.Prune.Evict.{evict-keeps}
use ship_flow_tauri.LookupCache.Prune.Bounds.{kept_entries, eviction_order, kept-IsDescribed}

-- The time at which the list says that a key was last read.
abbrev access_of : Text → List ReadyEntry → Option ℕ
access_of k [] = none
access_of k (x ∷ xs) = if x.cache_key == k then some x.last_accessed_at else access_of k xs

abbrev Covers : Entries → List ReadyEntry → Type 0
Covers m l =
    (k : Text) (e : CachedLookupEntry)
    → HashMap.get k m ≡ some (ready e)
    → access_of k l ≡ some e.last_accessed_at

Covers-ready_entries : (m : Entries) → Covers m (ready_entries m)
unfolding ready_entries HashMap.get
Covers-ready_entries [] k e h = ground arith
Covers-ready_entries ((j, ready x) ∷ m) k e h = ground (arith, Covers-ready_entries m k e)
Covers-ready_entries ((j, loading n) ∷ m) k e h = ground (arith, Covers-ready_entries m k e)

access_of-insert_by_access :
    (k : Text) (x : ReadyEntry) (l : List ReadyEntry)
    → Misses x.cache_key l
    → access_of k (insert_by_access x l) ≡ access_of k (x ∷ l)
unfolding insert_by_access
access_of-insert_by_access k x [] h = refl
access_of-insert_by_access k x (y ∷ ys) h = ground (
  arith,
  access_of-insert_by_access k x ys,
  text_beq_iff x.cache_key k,
  text_beq_iff y.cache_key k,
  text_beq_iff x.cache_key y.cache_key,
)

access_of-sort_by_access :
    (k : Text) (l : List ReadyEntry)
    → DistinctKeys l
    → access_of k (sort_by_access l) ≡ access_of k l
unfolding sort_by_access
access_of-sort_by_access k [] d = refl
access_of-sort_by_access k (x ∷ xs) d = ground (
  arith,
  access_of-insert_by_access k x (sort_by_access xs) (All-sort_by_access _ xs d.0),
  access_of-sort_by_access k xs d.1,
)

abbrev AreLater : ℕ → List ReadyEntry → Type 0
AreLater t l = All (λ (y : ReadyEntry). t ≤ y.last_accessed_at) l

abbrev IsSortedByAccess : List ReadyEntry → Type 0
IsSortedByAccess [] = Unit
IsSortedByAccess (x ∷ xs) = AreLater x.last_accessed_at xs × IsSortedByAccess xs

AreLater-trans : (s t : ℕ) (l : List ReadyEntry) → s ≤ t → AreLater t l → AreLater s l
AreLater-trans s t [] h a = tt
AreLater-trans s t (x ∷ xs) h a = (omega arith, AreLater-trans s t xs h a.1)

AreLater-insert_by_access :
    (t : ℕ) (x : ReadyEntry) (l : List ReadyEntry)
    → t ≤ x.last_accessed_at
    → AreLater t l
    → AreLater t (insert_by_access x l)
unfolding insert_by_access
AreLater-insert_by_access t x [] h a = (h, tt)
AreLater-insert_by_access t x (y ∷ ys) h a = ground (arith, AreLater-insert_by_access t x ys h a.1)

insert_by_access-IsSortedByAccess :
    (x : ReadyEntry) (l : List ReadyEntry)
    → IsSortedByAccess l
    → IsSortedByAccess (insert_by_access x l)
unfolding insert_by_access
insert_by_access-IsSortedByAccess x [] s = (tt, tt)
insert_by_access-IsSortedByAccess x (y ∷ ys) s =
    elim (Bool-cases (leb x.last_accessed_at y.last_accessed_at)) [
      | inl le ↦ rw le (
        (ground arith, AreLater-trans x.last_accessed_at y.last_accessed_at ys (ground arith) s.0),
        s,
      )
      | inr gt ↦ rw gt (
        AreLater-insert_by_access y.last_accessed_at x ys (ground arith) s.0,
        insert_by_access-IsSortedByAccess x ys s.1,
      )
    ]

sort_by_access-IsSortedByAccess : (l : List ReadyEntry) → IsSortedByAccess (sort_by_access l)
unfolding sort_by_access
sort_by_access-IsSortedByAccess [] = tt
sort_by_access-IsSortedByAccess (x ∷ xs) =
    insert_by_access-IsSortedByAccess x _ (sort_by_access-IsSortedByAccess xs)

access_of-AreLater :
    (t u : ℕ) (k : Text) (l : List ReadyEntry) → AreLater t l → access_of k l ≡ some u → t ≤ u
access_of-AreLater t u k [] a h = ground (arith, h)
access_of-AreLater t u k (x ∷ xs) a h = ground (arith, h, a.0, access_of-AreLater t u k xs a.1)

Covers-remove :
    (m : Entries) (x : ReadyEntry) (l : List ReadyEntry)
    → Covers m (x ∷ l)
    → Covers (HashMap.remove x.cache_key m) l
Covers-remove m x l c k e h = ground (arith, h, get-remove x.cache_key k m, c k e)

module _ (a b : ℕ) (k k' : Text) (e e' : CachedLookupEntry) where
  evict_lru :
      (l : List ReadyEntry) (m : Entries) (n s : ℕ)
      → Covers m l
      → IsSortedByAccess l
      → HashMap.get k (evict a b n s l m) ≡ some (ready e)
      → HashMap.get k' m ≡ some (ready e')
      → HashMap.get k' (evict a b n s l m) ≡ none
      → e'.last_accessed_at ≤ e.last_accessed_at
  unfolding evict
  evict_lru [] m n s c o kept was gone = ground (arith, was, gone)
  evict_lru (x ∷ l) m n s c o kept was gone = elim (Bool-cases (leb n a && leb s b)) [
    | inl fits ↦ ground (arith, was, gone, fits)
    | inr over ↦
        let rest = HashMap.remove x.cache_key m in
        let covers = Covers-remove m x l c in
        let later =
          access_of-AreLater x.last_accessed_at e.last_accessed_at k l o.0
            (covers k e (evict-keeps a b l rest _ _ k (ready e) (rw over at kept))) in
        elim (Bool-cases (x.cache_key == k')) [
          | inl same ↦ ground (arith, c k' e' was, same, later)
          | inr other ↦
              evict_lru l rest _ _ covers o.1 (rw over at kept)
                (ground (arith, get-remove x.cache_key k' m, other, was)) (rw over at gone)
        ]
  ]

module _ (m : Entries) (now max_entries max_bytes : ℕ) (distinct : HashMap.Distinct m) where
  -- Of a map with distinct keys, a ready entry that had not expired and is evicted was read no later
  -- than any ready entry that stays.
  pub prune_lru :
      (k k' : Text) (e e' : CachedLookupEntry)
      → HashMap.get k (prune_entries m now max_entries max_bytes) ≡ some (ready e)
      → HashMap.get k' m ≡ some (ready e')
      → is_expired e' now ≡ false
      → HashMap.get k' (prune_entries m now max_entries max_bytes) ≡ none
      → e'.last_accessed_at ≤ e.last_accessed_at
  unfolding prune_entries
  prune_lru k k' e e' kept was fresh gone =
      let keys = DistinctKeys-ready_entries _ (kept-IsDescribed m now distinct).distinct in
      evict_lru _ max_bytes k k' e e' (eviction_order m now) (kept_entries m now) _ _
        (λ j x h.
          access_of-sort_by_access j _ keys ∙ Covers-ready_entries (kept_entries m now) j x h)
        (sort_by_access-IsSortedByAccess _) kept
        (ground (arith, get-retain (is_kept now) k' m distinct, was, fresh)) gone
