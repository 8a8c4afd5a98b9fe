-- ===== src/LookupCache/Actions/Requests/Ends.antt =====
-- lookup_cache.rs: how a request ends that meets no other one.
use ship_flow_tauri.Prelude.{
  ℕ, ◌≤◌, Text, Bool, true, false, not, Option, none, some, List, [], ◌∷◌, ◌≡◌, refl, ◌∙◌, ◌&&◌,
  Bool-cases, inl, inr, arith, text_eq, nat_eq, text_beq_iff, length,
}
use ship_flow_tauri.Prelude.HashMap
use ship_flow_tauri.Core.Model.{LookupKind}
use ship_flow_tauri.LookupCache.Entry.{
  LookupCachePolicy, LookupCacheSlot, ready, loading, CachedLookupValue,
}
use ship_flow_tauri.LookupCache.Prune.{LookupCacheInner}
use ship_flow_tauri.LookupCache.Actions.{
  LookupCacheAction, serve, start_fetch, wait, reject, LoaderResult, next_action, slot_action,
  hit_entry, replace_entry, miss_entry, remove_entry,
}
use ship_flow_tauri.LookupCache.Actions.Flights.{
  LookupFetchGuard, World, launched, land, is_guard_of,
}
use ship_flow_tauri.LookupCache.Actions.Requests.{
  Phase, asking, discarding, waiting, hydrating, loading_from_source, returned, failed, Event,
  serve_value, after_action, outcome_of, hydrated, turn, run,
}

abbrev pub has_ended : Phase → Bool
has_ended (returned payload) = true
has_ended (failed e) = true
has_ended _ = false

-- Whether a fetch for the key is under way.
abbrev pub is_busy : Option LookupCacheSlot → Bool
is_busy (some (loading notify)) = true
is_busy _ = false

abbrev is_wait : LookupCacheAction → Bool
is_wait (wait notify) = true
is_wait _ = false

abbrev is_miss : LookupCacheAction → Bool
is_miss (start_fetch notify generation allow_persistent) = true
is_miss (reject e) = true
is_miss _ = false

length-land : (f : LookupFetchGuard) (fs : List LookupFetchGuard) → length (land f fs) ≤ length fs
unfolding land
length-land f [] = omega arith
length-land f (g ∷ gs) = ground (arith, length-land f gs)

land_own :
    (f : LookupFetchGuard) (fs : List LookupFetchGuard) → length (land f (f ∷ fs)) ≤ length fs
unfolding land is_guard_of
land_own f fs = ground (arith, length-land f fs, (text_beq_iff f.cache_key f.cache_key).1 refl)

-- The request has ended, and no more fetches are in flight than the limit.
record IsOver (limit : ℕ) (result : Phase × World) : Type 0 where
  pub ended : has_ended result.0 ≡ true
  pub landed : length result.1.flights ≤ limit

miss_is_miss :
    (inner : LookupCacheInner) (k : Text) (kind : LookupKind) (bypass : Bool)
    (notify now logged_at : ℕ)
    → HashMap.get k inner.entries ≡ none
    → is_miss (next_action inner k kind bypass notify now logged_at).0 ≡ true
unfolding next_action slot_action miss_entry
miss_is_miss inner k kind bypass notify now logged_at h = rw h (ground arith)

slot_goes_on :
    (slot : Option LookupCacheSlot) (inner : LookupCacheInner) (k : Text) (kind : LookupKind)
    (bypass : Bool) (notify now logged_at : ℕ)
    → is_busy slot ≡ false
    → is_wait (slot_action slot inner k kind bypass notify now logged_at).0 ≡ false
unfolding slot_action hit_entry replace_entry miss_entry
slot_goes_on none inner k kind bypass notify now logged_at h = ground arith
slot_goes_on (some (loading n)) inner k kind bypass notify now logged_at h =
    absurd (ground (arith, h))
slot_goes_on (some (ready entry)) inner k kind bypass notify now logged_at h = ground arith

removed_slot :
    (inner : LookupCacheInner) (k : Text) → HashMap.get k (remove_entry inner k).entries ≡ none
unfolding remove_entry
removed_slot inner k =
    HashMap.get-remove k k inner.entries ∙ ground (arith, (text_beq_iff k k).1 refl)

module _ (policy : LookupCachePolicy) (decodes : Text → Bool) (k : Text) (kind : LookupKind)
    (force_refresh : Bool) where
  abbrev from : Phase → List Event → World → Phase × World
  from phase events w = run policy decodes k kind force_refresh phase events w

  stays-IsOver :
      (limit : ℕ) (phase : Phase) (events : List Event) (w : World)
      → has_ended phase ≡ true
      → length w.flights ≤ limit
      → IsOver limit (from phase events w)
  unfolding run turn
  stays-IsOver limit phase [] w e few = record { ended = e; landed = few }
  stays-IsOver limit (returned payload) (event ∷ rest) w e few =
      stays-IsOver limit (returned payload) rest w e few
  stays-IsOver limit (failed problem) (event ∷ rest) w e few =
      stays-IsOver limit (failed problem) rest w e few
  stays-IsOver limit (asking b) (event ∷ rest) w e few = absurd (ground (arith, e))
  stays-IsOver limit (discarding b) (event ∷ rest) w e few = absurd (ground (arith, e))
  stays-IsOver limit (waiting n) (event ∷ rest) w e few = absurd (ground (arith, e))
  stays-IsOver limit (hydrating guard) (event ∷ rest) w e few = absurd (ground (arith, e))
  stays-IsOver limit (loading_from_source guard) (event ∷ rest) w e few = absurd (ground (arith, e))

  outcome_ends :
      (result : LoaderResult)
      → has_ended (outcome_of policy decodes k kind force_refresh result) ≡ true
  unfolding outcome_of
  outcome_ends (LoaderResult.loaded payload) = refl
  outcome_ends (LoaderResult.cacheable e) = refl
  outcome_ends (LoaderResult.non_cacheable e) = refl

  loading-IsOver :
      (limit : ℕ) (guard : LookupFetchGuard) (e : Event) (rest : List Event) (w : World)
      → length (land guard w.flights) ≤ limit
      → IsOver limit (from (loading_from_source guard) (e ∷ rest) w)
  unfolding run turn
  loading-IsOver limit guard e rest w few = stays-IsOver limit _ rest _ (outcome_ends e.result) few

  hydrated-IsOver :
      (limit : ℕ) (guard : LookupFetchGuard) (persistent : Option Text) (e e' : Event)
      (rest : List Event) (w : World)
      → length (land guard w.flights) ≤ limit
      → IsOver limit (
          from
            (hydrated policy decodes k kind force_refresh persistent guard e w).0
            (e' ∷ rest)
            (hydrated policy decodes k kind force_refresh persistent guard e w).1)
  unfolding hydrated
  hydrated-IsOver limit guard none e e' rest w few = loading-IsOver limit guard e' rest w few
  hydrated-IsOver limit guard (some payload) e e' rest w few = elim (Bool-cases (decodes payload)) [
    | inl good ↦ rw good (stays-IsOver limit (returned (some payload)) (e' ∷ rest) _ refl few)
    | inr bad ↦ rw bad (loading-IsOver limit guard e' rest w few)
  ]

  hydrating-IsOver :
      (limit : ℕ) (guard : LookupFetchGuard) (e e' : Event) (rest : List Event) (w : World)
      → length (land guard w.flights) ≤ limit
      → IsOver limit (from (hydrating guard) (e ∷ e' ∷ rest) w)
  unfolding run turn
  hydrating-IsOver limit guard e e' rest w few =
      hydrated-IsOver limit guard e.persistent e e' rest w few

  after_miss :
      (bypass : Bool) (action : LookupCacheAction) (inner : LookupCacheInner) (w : World)
      (e e' : Event) (rest : List Event)
      → is_miss action ≡ true
      → IsOver (length w.flights) (
          from
            (after_action policy decodes k kind force_refresh bypass action)
            (e ∷ e' ∷ rest)
            (record { inner = inner; flights = launched k action w.flights }))
  unfolding after_action
  after_miss bypass (serve entry) inner w e e' rest m = absurd (ground (arith, m))
  after_miss bypass (wait n) inner w e e' rest m = absurd (ground (arith, m))
  after_miss bypass (reject problem) inner w e e' rest m =
      stays-IsOver (length w.flights) (failed problem) (e ∷ e' ∷ rest)
        (record { inner = inner; flights = w.flights }) refl (omega arith)
  after_miss bypass (start_fetch notify generation allow_persistent) inner w e e' rest m =
      let guard : LookupFetchGuard = record {
        cache_key = k;
        notify = notify;
        generation = generation;
      } in
      let begun : World = record { inner = inner; flights = guard ∷ w.flights } in
      let few = land_own guard w.flights in
      elim (Bool-cases (allow_persistent && not force_refresh)) [
        | inl first ↦ rw first (hydrating-IsOver (length w.flights) guard e e' rest begun few)
        | inr direct ↦ rw direct (loading-IsOver (length w.flights) guard e (e' ∷ rest) begun few)
      ]

  asking_missing :
      (bypass : Bool) (e e' e'' : Event) (rest : List Event) (w : World)
      → HashMap.get k w.inner.entries ≡ none
      → IsOver (length w.flights) (from (asking bypass) (e ∷ e' ∷ e'' ∷ rest) w)
  unfolding run turn
  asking_missing bypass e e' e'' rest w missing =
      after_miss bypass _ _ w e' e'' rest
        (miss_is_miss w.inner k kind bypass e.notify e.now e.logged_at missing)

  discarding-IsOver :
      (bypass : Bool) (e1 e2 e3 e4 : Event) (rest : List Event) (w : World)
      → IsOver (length w.flights) (from (discarding bypass) (e1 ∷ e2 ∷ e3 ∷ e4 ∷ rest) w)
  unfolding run turn
  discarding-IsOver bypass e1 e2 e3 e4 rest w =
      asking_missing bypass e2 e3 e4 rest (record w { inner = remove_entry w.inner k })
        (removed_slot w.inner k)

  served-IsOver :
      (bypass : Bool) (value : CachedLookupValue) (e1 e2 e3 e4 : Event) (rest : List Event)
      (w : World)
      → IsOver (length w.flights) (
          from
            (serve_value policy decodes k kind force_refresh bypass value)
            (e1 ∷ e2 ∷ e3 ∷ e4 ∷ rest)
            w)
  unfolding serve_value
  served-IsOver bypass (CachedLookupValue.success payload) e1 e2 e3 e4 rest w =
      elim (Bool-cases (decodes payload)) [
        | inl good ↦ rw good (
            stays-IsOver (length w.flights) (returned (some payload)) (e1 ∷ e2 ∷ e3 ∷ e4 ∷ rest) w
              refl (omega arith))
        | inr bad ↦ rw bad (discarding-IsOver bypass e1 e2 e3 e4 rest w)
      ]
  served-IsOver bypass (CachedLookupValue.error problem) e1 e2 e3 e4 rest w =
      stays-IsOver (length w.flights) (failed _) (e1 ∷ e2 ∷ e3 ∷ e4 ∷ rest) w refl (omega arith)

  after_any :
      (bypass : Bool) (action : LookupCacheAction) (inner : LookupCacheInner) (w : World)
      (e1 e2 e3 e4 : Event) (rest : List Event)
      → is_wait action ≡ false
      → IsOver (length w.flights) (
          from
            (after_action policy decodes k kind force_refresh bypass action)
            (e1 ∷ e2 ∷ e3 ∷ e4 ∷ rest)
            (record { inner = inner; flights = launched k action w.flights }))
  unfolding after_action
  after_any bypass (wait n) inner w e1 e2 e3 e4 rest m = absurd (ground (arith, m))
  after_any bypass (reject problem) inner w e1 e2 e3 e4 rest m =
      after_miss bypass (reject problem) inner w e1 e2 (e3 ∷ e4 ∷ rest) refl
  after_any bypass (start_fetch n g p) inner w e1 e2 e3 e4 rest m =
      after_miss bypass (start_fetch n g p) inner w e1 e2 (e3 ∷ e4 ∷ rest) refl
  after_any bypass (serve entry) inner w e1 e2 e3 e4 rest m =
      served-IsOver bypass entry.value e1 e2 e3 e4 rest
        (record { inner = inner; flights = w.flights })

  -- A request that meets no other one ends within five turns, whatever the persistent cache and the
  -- loader return, where no fetch for its key is under way at first: it never waits, it meets an
  -- entry that does not decode at most once, and it leaves no fetch of its own in flight.
  pub run_ends :
      (bypass : Bool) (e1 e2 e3 e4 e5 : Event) (w : World)
      → is_busy (HashMap.get k w.inner.entries) ≡ false
      → let (phase, after) =
          run policy decodes k kind force_refresh (asking bypass) (e1 ∷ e2 ∷ e3 ∷ e4 ∷ e5 ∷ []) w in
        (has_ended phase ≡ true) × (length after.flights ≤ length w.flights)
  unfolding run turn next_action
  run_ends bypass e1 e2 e3 e4 e5 w free =
      let over = after_any bypass _ _ w e2 e3 e4 e5 [] (
        slot_goes_on (HashMap.get k w.inner.entries) w.inner k kind bypass e1.notify e1.now
          e1.logged_at free) in
      (over.ended, over.landed)
