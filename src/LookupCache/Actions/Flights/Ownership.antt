-- ===== src/LookupCache/Actions/Flights/Ownership.antt =====
-- lookup_cache.rs: loading slots and the flights that own them.
use ship_flow_tauri.Prelude.{
  ℕ, Text, true, false, some, List, [], ◌∷◌, ◌≡◌, ◌≢◌, refl, sym, nat_eq, text_eq, text_beq_iff,
  Bool-cases, inl, inr, arith,
}
use ship_flow_tauri.Prelude.HashMap
use ship_flow_tauri.Prelude.HashMap.{get-insert, get-remove, insert-Distinct}
use ship_flow_tauri.LookupCache.Entry.{CachedLookupEntry, ready, loading}
use ship_flow_tauri.LookupCache.Prune.{LookupCacheInner, prune_lookup_cache}
use ship_flow_tauri.LookupCache.Prune.Bounds.{prune-keeps}
use ship_flow_tauri.LookupCache.Actions.Flights.{LookupFetchGuard, is_guard_of, has_flight, land}

abbrev pub IsOwned : LookupCacheInner → List LookupFetchGuard → Type 0
IsOwned inner fs =
    (k : Text) (n : ℕ)
    → HashMap.get k inner.entries ≡ some (loading n)
    → has_flight k n inner.generation fs ≡ true

has_flight-land :
    (k : Text) (n g : ℕ) (f : LookupFetchGuard) (fs : List LookupFetchGuard)
    → is_guard_of k n g f ≡ false
    → has_flight k n g (land f fs) ≡ has_flight k n g fs
unfolding has_flight land is_guard_of
has_flight-land k n g f [] h = refl
has_flight-land k n g f (x ∷ xs) h = ground (
  arith,
  has_flight-land k n g f xs h,
  text_beq_iff x.cache_key f.cache_key,
  text_beq_iff x.cache_key k,
  text_beq_iff f.cache_key k,
)

guard_fields :
    (k : Text) (n g : ℕ) (f : LookupFetchGuard)
    → is_guard_of k n g f ≡ true
    → (f.cache_key ≡ k) × (f.notify ≡ n) × (f.generation ≡ g)
unfolding is_guard_of
guard_fields k n g f h =
    (ground (arith, h, text_beq_iff f.cache_key k), ground (arith, h), ground (arith, h))

module _ (inner : LookupCacheInner) (fs : List LookupFetchGuard) where
  -- A flight may land once no loading slot of its generation is its own.
  pub land-IsOwned :
      (f : LookupFetchGuard)
      → (inner.generation ≡ f.generation
          → HashMap.get f.cache_key inner.entries ≢ some (loading f.notify))
      → IsOwned inner fs
      → IsOwned inner (land f fs)
  land-IsOwned f gone o k n h = elim (Bool-cases (is_guard_of k n inner.generation f)) [
    | inl same ↦
        let fields = guard_fields k n inner.generation f same in
        absurd (gone (sym fields.2) (rw (fields.0, fields.1) h))
    | inr other ↦ rw (has_flight-land k n inner.generation f fs other) (o k n h)
  ]

  pub prune-IsOwned :
      (now : ℕ)
      → HashMap.Distinct inner.entries
      → IsOwned inner fs
      → IsOwned (prune_lookup_cache inner now).0 fs
  unfolding prune_lookup_cache
  prune-IsOwned now d o k n h =
      o k n (prune-keeps inner.entries now inner.max_entries inner.max_bytes d k (loading n) h).0

  pub insert_ready-IsOwned :
      (j : Text) (e : CachedLookupEntry)
      → IsOwned inner fs
      → IsOwned (record inner { entries = HashMap.insert j (ready e) inner.entries }) fs
  insert_ready-IsOwned j e o k n h =
      ground (arith, h, get-insert j k (ready e) inner.entries, o k n)

  pub insert_loading-IsOwned :
      (j : Text) (notify : ℕ)
      → IsOwned inner fs
      → IsOwned
          (record inner { entries = HashMap.insert j (loading notify) inner.entries })
          (record { cache_key = j; notify = notify; generation = inner.generation } ∷ fs)
  unfolding has_flight is_guard_of
  insert_loading-IsOwned j notify o k n h =
      ground (arith, h, get-insert j k (loading notify) inner.entries, o k n)

  pub remove-IsOwned :
      (j : Text)
      → IsOwned inner fs
      → IsOwned (record inner { entries = HashMap.remove j inner.entries }) fs
  remove-IsOwned j o k n h = ground (arith, h, get-remove j k inner.entries, o k n)

module _ (inner : LookupCacheInner) (fs : List LookupFetchGuard) (f : LookupFetchGuard)
    (o : IsOwned inner fs) where
  abbrev without_key : LookupCacheInner
  without_key = record inner { entries = HashMap.remove f.cache_key inner.entries }

  -- A flight lands after its slot was removed.
  pub land_removed : IsOwned without_key (land f fs)
  land_removed =
      land-IsOwned without_key fs f
        (λ _ h. ground (
          arith,
          h,
          get-remove f.cache_key f.cache_key inner.entries,
          text_beq_iff f.cache_key f.cache_key,
        ))
        (remove-IsOwned inner fs f.cache_key o)

  abbrev with_ready : CachedLookupEntry → LookupCacheInner
  with_ready e = record inner { entries = HashMap.insert f.cache_key (ready e) inner.entries }

  -- A flight lands after its result was stored and the cache pruned.
  pub land_stored :
      (e : CachedLookupEntry) (now : ℕ)
      → HashMap.Distinct inner.entries
      → IsOwned (prune_lookup_cache (with_ready e) now).0 (land f fs)
  unfolding prune_lookup_cache
  land_stored e now d =
      let d' = insert-Distinct f.cache_key (ready e) inner.entries d in
      land-IsOwned (prune_lookup_cache (with_ready e) now).0 fs f
        (λ _ h. ground (
          arith,
          prune-keeps (with_ready e).entries now inner.max_entries inner.max_bytes d' f.cache_key
              (loading f.notify) h,
          get-insert f.cache_key f.cache_key (ready e) inner.entries,
          text_beq_iff f.cache_key f.cache_key,
        ))
        (prune-IsOwned (with_ready e) fs now d' (insert_ready-IsOwned inner fs f.cache_key e o))
