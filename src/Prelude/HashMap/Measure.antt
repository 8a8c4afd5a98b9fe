-- ===== src/Prelude/HashMap/Measure.antt =====
-- How the changes of a `HashMap` act on a weighted sum of its entries; sizes and counts are such.
use Prim.Native.Nat.{ℕ, suc, ◌+◌, ◌≤◌}
use mathlib.Core.Path.{◌≡◌, refl}
use mathlib.Core.Option.{none, some}
use mathlib.Core.Bool.{Bool, false}
use mathlib.Core.List.{[], ◌∷◌}
use native.Mathlib.Omega.{arith}
use ship_flow_tauri.Prelude.Strings.{Equality}
use ship_flow_tauri.Prelude.Lists.{length, length-sum_by, sum_by}
use ship_flow_tauri.Prelude.HashMap.{HashMap, Distinct, get, remove, insert, retain}

module _ {K V : Type 0} ⦃e : Equality K⦄ where
  pub remove_absent : (k : K) (m : HashMap K V) → get k m ≡ none → remove k m ≡ m
  unfolding get remove
  remove_absent k [] h = refl
  remove_absent k ((i, v) ∷ m) h = ground (arith, remove_absent k m)

  -- Removing an entry takes its weight off the sum.
  pub sum_by-remove :
      (w : K × V → ℕ) (k : K) (v : V) (m : HashMap K V)
      → Distinct m
      → get k m ≡ some v
      → w (k, v) + sum_by w (remove k m) ≡ sum_by w m
  unfolding get remove sum_by
  sum_by-remove w k v [] d h = ground arith
  sum_by-remove w k v ((i, u) ∷ m) d h =
      ground (arith, sum_by-remove w k v m d.1, remove_absent i m d.0, e.equal_iff i k)

  pub sum_by-remove-le :
      (w : K × V → ℕ) (k : K) (m : HashMap K V) → sum_by w (remove k m) ≤ sum_by w m
  unfolding remove sum_by
  sum_by-remove-le w k [] = omega arith
  sum_by-remove-le w k ((i, u) ∷ m) = ground (arith, sum_by-remove-le w k m)

  pub sum_by-insert :
      (w : K × V → ℕ) (k : K) (v : V) (m : HashMap K V)
      → sum_by w (insert k v m) ≡ w (k, v) + sum_by w (remove k m)
  unfolding insert sum_by
  sum_by-insert w k v m = refl

  pub sum_by-retain-le :
      (w : K × V → ℕ) (p : V → Bool) (m : HashMap K V) → sum_by w (retain p m) ≤ sum_by w m
  unfolding retain sum_by
  sum_by-retain-le w p [] = omega arith
  sum_by-retain-le w p ((i, u) ∷ m) = ground (arith, sum_by-retain-le w p m)

  -- What weighs nothing where the test fails keeps its sum.
  pub sum_by-retain_eq :
      (w : K × V → ℕ) (p : V → Bool) (m : HashMap K V)
      → ((k : K) (v : V) → p v ≡ false → w (k, v) ≡ 0)
      → sum_by w (retain p m) ≡ sum_by w m
  unfolding retain sum_by
  sum_by-retain_eq w p [] h = refl
  sum_by-retain_eq w p ((i, u) ∷ m) h = ground (arith, sum_by-retain_eq w p m h, h i u)

  -- Writing a key exchanges the weight of its old entry, if it had one, for the new one's.
  pub sum_by-insert-some :
      (w : K × V → ℕ) (k : K) (u v : V) (m : HashMap K V)
      → Distinct m
      → get k m ≡ some u
      → w (k, u) + sum_by w (insert k v m) ≡ w (k, v) + sum_by w m
  sum_by-insert-some w k u v m d h = omega (arith, sum_by-insert w k v m, sum_by-remove w k u m d h)

  pub sum_by-insert-none :
      (w : K × V → ℕ) (k : K) (v : V) (m : HashMap K V)
      → get k m ≡ none
      → sum_by w (insert k v m) ≡ w (k, v) + sum_by w m
  sum_by-insert-none w k v m h = rw (sum_by-insert w k v m, remove_absent k m h)

  pub sum_by-insert-le :
      (w : K × V → ℕ) (k : K) (v : V) (m : HashMap K V)
      → sum_by w (insert k v m) ≤ w (k, v) + sum_by w m
  sum_by-insert-le w k v m = omega (arith, sum_by-insert w k v m, sum_by-remove-le w k m)

  pub length-insert-le : (k : K) (v : V) (m : HashMap K V) → length (insert k v m) ≤ suc (length m)
  length-insert-le k v m =
      omega (arith, length-sum_by (insert k v m), length-sum_by m, sum_by-insert-le (λ _. 1) k v m)

  pub length-insert-some :
      (k : K) (u v : V) (m : HashMap K V)
      → Distinct m
      → get k m ≡ some u
      → length (insert k v m) ≡ length m
  length-insert-some k u v m d h = omega (
    arith,
    length-sum_by (insert k v m),
    length-sum_by m,
    sum_by-insert-some (λ _. 1) k u v m d h,
  )

  pub length-remove-le : (k : K) (m : HashMap K V) → length (remove k m) ≤ length m
  length-remove-le k m =
      omega (arith, length-sum_by (remove k m), length-sum_by m, sum_by-remove-le (λ _. 1) k m)
