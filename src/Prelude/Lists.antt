-- ===== src/Prelude/Lists.antt =====
-- Lists measured by native numbers: lengths, weighted sums, counts and filters.
use Prim.Native.Nat.{ℕ, zero, suc, ◌+◌, ◌≤◌}
use mathlib.Core.Path.{◌≡◌, refl}
use mathlib.Core.Bool.{Bool, true, false}
use mathlib.Core.Option.{Option, none, some}
use mathlib.Core.List.{List, [], ◌∷◌, ◌++◌}
use native.Mathlib.Omega.{arith}
use ship_flow_tauri.Prelude.Tests.{if◌then◌else◌}

-- A predicate on every element, by recursion.
abbrev pub All {ℓ κ} : {A : Type ℓ} → (A → Type κ) → List A → Type κ
All P [] = Unit
All P (x ∷ xs) = P x × All P xs

module _ {ℓ} {A : Type ℓ} where
  abbrev pub length : List A → ℕ
  length [] = 0
  length (x ∷ xs) = suc (length xs)

  abbrev pub get_elem? : List A → ℕ → Option A
  get_elem? [] n = none
  get_elem? (x ∷ xs) zero = some x
  get_elem? (x ∷ xs) (suc n) = get_elem? xs n

  -- The sum of a weight over a list.
  unfoldable pub sum_by : (A → ℕ) → List A → ℕ
  sum_by w [] = 0
  sum_by w (x ∷ xs) = w x + sum_by w xs

  abbrev pub weight_of : (A → Bool) → A → ℕ
  weight_of p x = if p x then 1 else 0

  -- How many elements pass a test.
  abbrev pub count : (A → Bool) → List A → ℕ
  count p xs = sum_by (weight_of p) xs

  unfoldable pub filter : (A → Bool) → List A → List A
  filter p [] = []
  filter p (x ∷ xs) = let rest = filter p xs in if p x then x ∷ rest else rest

  pub length-append : (xs ys : List A) → length (xs ++ ys) ≡ length xs + length ys
  length-append [] ys = omega arith
  length-append (x ∷ xs) ys = omega (arith, length-append xs ys)

  pub sum_by_nil : (w : A → ℕ) → sum_by w [] ≡ 0
  unfolding sum_by
  sum_by_nil w = refl

  pub sum_by_cons : (w : A → ℕ) (x : A) (xs : List A) → sum_by w (x ∷ xs) ≡ w x + sum_by w xs
  unfolding sum_by
  sum_by_cons w x xs = refl

  pub sum_by-append : (w : A → ℕ) (xs ys : List A) → sum_by w (xs ++ ys) ≡ sum_by w xs + sum_by w ys
  unfolding sum_by
  sum_by-append w [] ys = omega arith
  sum_by-append w (x ∷ xs) ys = omega (arith, sum_by-append w xs ys)

  pub sum_by-filter-le :
      (w : A → ℕ) (p : A → Bool) (xs : List A) → sum_by w (filter p xs) ≤ sum_by w xs
  unfolding sum_by filter
  sum_by-filter-le w p [] = omega arith
  sum_by-filter-le w p (x ∷ xs) = ground (arith, sum_by-filter-le w p xs)

  pub length-filter : (p : A → Bool) (xs : List A) → length (filter p xs) ≤ length xs
  unfolding filter
  length-filter p [] = omega arith
  length-filter p (x ∷ xs) = ground (arith, length-filter p xs)

  -- Where every element weighs the same under two weights, so do the lists.
  pub sum_by-ext : (v w : A → ℕ) (xs : List A) → ((x : A) → v x ≡ w x) → sum_by v xs ≡ sum_by w xs
  unfolding sum_by
  sum_by-ext v w [] h = refl
  sum_by-ext v w (x ∷ xs) h = omega (arith, h x, sum_by-ext v w xs h)

  pub length-sum_by : (xs : List A) → length xs ≡ sum_by (λ _. 1) xs
  unfolding sum_by
  length-sum_by [] = refl
  length-sum_by (x ∷ xs) = omega (arith, length-sum_by xs)

  pub filter_cons :
      (p : A → Bool) (x : A) (xs : List A)
      → filter p (x ∷ xs) ≡ (if p x then x ∷ filter p xs else filter p xs)
  unfolding filter
  filter_cons p x xs = refl

module _ {ℓ} {A : Type ℓ} where
  pub All-filter {κ} :
      (P : A → Type κ) (q : A → Bool) (xs : List A)
      → All P xs
      → All (λ (x : A). P x × (q x ≡ true)) (filter q xs)
  unfolding filter
  All-filter P q [] a = tt
  All-filter P q (x ∷ xs) a = head (q x) refl (All-filter P q xs a.1)
    where
      head :
          (b : Bool)
          → q x ≡ b
          → All (λ (y : A). P y × (q y ≡ true)) (filter q xs)
          → All (λ (y : A). P y × (q y ≡ true)) (if b then x ∷ filter q xs else filter q xs)
      head true e rest = ((a.0, e), rest)
      head false e rest = rest

  pub filter_none : (q : A → Bool) (xs : List A) → ((x : A) → q x ≡ false) → filter q xs ≡ []
  unfolding filter
  filter_none q [] h = refl
  filter_none q (x ∷ xs) h = ground (arith, filter_none q xs h, h x)

  pub filter-count_zero : (q : A → Bool) (xs : List A) → count q xs ≡ 0 → filter q xs ≡ []
  unfolding filter sum_by
  filter-count_zero q [] h = refl
  filter-count_zero q (x ∷ xs) h = ground (arith, h, filter-count_zero q xs)
