-- ===== src/Prelude/HashMap.antt =====
-- `HashMap`: entries with distinct keys, listed in the order in which the map iterates. That order
-- is unspecified in Rust; no law below depends on it.
pub mod Measure
use ship_flow_tauri.Prelude.Tests.{if◌then◌else◌}
use ship_flow_tauri.Prelude.Strings.{Equality, ◌==◌}
use mathlib.Core.Path.{◌≡◌}
use mathlib.Core.Bool.{Bool, true, false}
use mathlib.Core.Option.{Option, none, some}
use mathlib.Core.List.{List, [], ◌∷◌}
use native.Mathlib.Omega.{arith}

abbrev pub HashMap {ℓ κ} : Type ℓ → Type κ → Type (ℓ ⊔ κ)
HashMap K V = List (K × V)

abbrev pub keep_if {ℓ} : {V : Type ℓ} → (V → Bool) → Option V → Option V
keep_if p none = none
keep_if p (some v) = if p v then some v else none

module _ {K V : Type 0} ⦃e : Equality K⦄ where
  unfoldable pub get : K → HashMap K V → Option V
  get k [] = none
  get k ((j, v) ∷ m) = if j == k then some v else get k m

  unfoldable pub remove : K → HashMap K V → HashMap K V
  remove k [] = []
  remove k ((j, v) ∷ m) = let rest = remove k m in if j == k then rest else (j, v) ∷ rest

  unfoldable pub insert : K → V → HashMap K V → HashMap K V
  unfolding remove
  insert k v m = (k, v) ∷ remove k m

  -- No key occurs twice.
  abbrev pub Distinct : HashMap K V → Type 0
  Distinct [] = Unit
  Distinct ((k, v) ∷ m) = (get k m ≡ none) × Distinct m

  pub get-remove :
      (k j : K) (m : HashMap K V) → get j (remove k m) ≡ (if k == j then none else get j m)
  unfolding get remove
  get-remove k j [] = ground arith
  get-remove k j ((i, v) ∷ m) =
      ground (arith, get-remove k j m, e.equal_iff i k, e.equal_iff i j, e.equal_iff k j)

  pub get-insert :
      (k j : K) (v : V) (m : HashMap K V)
      → get j (insert k v m) ≡ (if k == j then some v else get j m)
  unfolding get insert
  get-insert k j v m = ground (arith, get-remove k j m)

  pub remove-Distinct : (k : K) (m : HashMap K V) → Distinct m → Distinct (remove k m)
  unfolding get remove
  remove-Distinct k [] d = tt
  remove-Distinct k ((i, v) ∷ m) d = ground (arith, get-remove k i m, remove-Distinct k m d.1)

  pub insert-Distinct : (k : K) (v : V) (m : HashMap K V) → Distinct m → Distinct (insert k v m)
  unfolding insert
  insert-Distinct k v m d =
      (ground (arith, get-remove k k m, e.equal_iff k k), remove-Distinct k m d)

  unfoldable pub retain : (V → Bool) → HashMap K V → HashMap K V
  retain p [] = []
  retain p ((k, v) ∷ m) = let rest = retain p m in if p v then (k, v) ∷ rest else rest

  retain-absent :
      (p : V → Bool) (k : K) (m : HashMap K V) → get k m ≡ none → get k (retain p m) ≡ none
  unfolding get retain
  retain-absent p k [] h = h
  retain-absent p k ((i, v) ∷ m) h = ground (arith, retain-absent p k m)

  pub get-retain :
      (p : V → Bool) (k : K) (m : HashMap K V)
      → Distinct m
      → get k (retain p m) ≡ keep_if p (get k m)
  unfolding get retain
  get-retain p k [] d = ground arith
  get-retain p k ((i, v) ∷ m) d =
      ground (arith, get-retain p k m d.1, retain-absent p i m d.0, e.equal_iff i k)

  pub retain-Distinct : (p : V → Bool) (m : HashMap K V) → Distinct m → Distinct (retain p m)
  unfolding retain
  retain-Distinct p [] d = tt
  retain-Distinct p ((i, v) ∷ m) d =
      ground (arith, retain-Distinct p m d.1, retain-absent p i m d.0)
