-- ===== src/Prelude/Table.antt =====
-- SQL tables as lists of rows: `SELECT ... LIMIT 1`, `UPDATE ... WHERE`, `DELETE ... WHERE` and
-- `ORDER BY`.
use Prim.Native.Nat.{suc, ◌+◌, ◌≤◌}
use mathlib.Core.Path.{◌≡◌, refl}
use mathlib.Core.Bool.{Bool, true, false, ◌||◌}
use mathlib.Core.Option.{Option, none, some}
use mathlib.Core.List.{List, [], ◌∷◌, ◌++◌}
use native.Mathlib.Omega.{arith}
use mathlib.Core.Logic.{inl, inr}
use ship_flow_tauri.Prelude.Tests.{if◌then◌else◌, Bool-cases}
use ship_flow_tauri.Prelude.Lists.{All, sum_by, count, length}
use ship_flow_tauri.Prelude.Strings.{Equality, ◌==◌}

module _ {ℓ} {A : Type ℓ} where
  unfoldable pub find_where : (A → Bool) → List A → Option A
  find_where p [] = none
  find_where p (x ∷ xs) = if p x then some x else find_where p xs

  unfoldable pub any : (A → Bool) → List A → Bool
  any p [] = false
  any p (x ∷ xs) = p x || any p xs

  unfoldable pub update_where : (A → Bool) → (A → A) → List A → List A
  update_where p f [] = []
  update_where p f (x ∷ xs) = (if p x then f x else x) ∷ update_where p f xs

  unfoldable pub delete_where : (A → Bool) → List A → List A
  delete_where p [] = []
  delete_where p (x ∷ xs) = let rest = delete_where p xs in if p x then rest else x ∷ rest

  unfoldable pub insert_by : (A → A → Bool) → A → List A → List A
  insert_by le x [] = x ∷ []
  insert_by le x (y ∷ ys) = let rest = y ∷ insert_by le x ys in if le x y then x ∷ y ∷ ys else rest

  -- ORDER BY: `le x y` says that `x` may stand before `y`.
  unfoldable pub sort_by : (A → A → Bool) → List A → List A
  unfolding insert_by
  sort_by le [] = []
  sort_by le (x ∷ xs) = insert_by le x (sort_by le xs)

  pub length-update_where :
      (p : A → Bool) (f : A → A) (xs : List A) → length (update_where p f xs) ≡ length xs
  unfolding update_where
  length-update_where p f [] = refl
  length-update_where p f (x ∷ xs) = ground (arith, length-update_where p f xs)

  -- An update that does not change whether a row passes `q` keeps the count of `q`.
  pub count-update_where :
      (q p : A → Bool) (f : A → A) (xs : List A)
      → All (λ (x : A). p x ≡ true → q (f x) ≡ q x) xs
      → count q (update_where p f xs) ≡ count q xs
  unfolding update_where sum_by
  count-update_where q p f [] h = refl
  count-update_where q p f (x ∷ xs) h = ground (arith, count-update_where q p f xs h.1, h.0)

  -- An update of rows that are counted, after which they are not.
  pub count-update_where_out :
      (q p : A → Bool) (f : A → A) (xs : List A)
      → All (λ (x : A). p x ≡ true → (q x ≡ true) × (q (f x) ≡ false)) xs
      → count q (update_where p f xs) + count p xs ≡ count q xs
  unfolding update_where sum_by
  count-update_where_out q p f [] h = omega arith
  count-update_where_out q p f (x ∷ xs) h = ground (arith, count-update_where_out q p f xs h.1, h.0)

  pub find_where-holds :
      (p : A → Bool) (xs : List A) (x : A) → find_where p xs ≡ some x → p x ≡ true
  unfolding find_where
  find_where-holds p [] x h = ground (arith, h)
  find_where-holds p (y ∷ ys) x h = ground (arith, h, find_where-holds p ys x)

  -- A lookup finds an updated row where the update does not change what it looks for.
  pub find_where-update_where :
      (q p : A → Bool) (f : A → A) (xs : List A) (x : A)
      → ((y : A) → q (f y) ≡ q y)
      → find_where q xs ≡ some x
      → find_where q (update_where p f xs) ≡ some (if p x then f x else x)
  unfolding find_where update_where
  find_where-update_where q p f [] x keeps h = ground (arith, h)
  find_where-update_where q p f (y ∷ ys) x keeps h =
      ground (arith, h, keeps y, find_where-update_where q p f ys x keeps)

  pub find_where-append :
      (q : A → Bool) (rows : List A) (row new : A)
      → find_where q rows ≡ some row
      → find_where q (rows ++ (new ∷ [])) ≡ some row
  unfolding find_where
  find_where-append q [] row new h = ground (arith, h)
  find_where-append q (x ∷ xs) row new h = ground (arith, h, find_where-append q xs row new)

  pub find_where-append_miss :
      (q : A → Bool) (rows more : List A)
      → All (λ (x : A). q x ≡ false) more
      → find_where q (rows ++ more) ≡ find_where q rows
  unfolding find_where
  find_where-append_miss q [] [] miss = refl
  find_where-append_miss q [] (x ∷ xs) miss =
      ground (arith, miss.0, find_where-append_miss q [] xs miss.1)
  find_where-append_miss q (x ∷ xs) more miss =
      ground (arith, find_where-append_miss q xs more miss)

  pub find_where-new :
      (q : A → Bool) (rows : List A) (new : A)
      → any q rows ≡ false
      → q new ≡ true
      → find_where q (rows ++ (new ∷ [])) ≡ some new
  unfolding find_where any
  find_where-new q [] new none_has has = ground (arith, has)
  find_where-new q (x ∷ xs) new none_has has =
      ground (arith, none_has, find_where-new q xs new, has)

  pub find_where-delete_where :
      (p q : A → Bool) (rows : List A) (row : A)
      → find_where q rows ≡ some row
      → p row ≡ false
      → find_where q (delete_where p rows) ≡ some row
  unfolding find_where delete_where
  find_where-delete_where p q [] row h e = ground (arith, h)
  find_where-delete_where p q (x ∷ xs) row h e =
      ground (arith, h, e, find_where-delete_where p q xs row)

  pub All-update_where {κ} :
      (P : A → Type κ) (p : A → Bool) (f : A → A) (xs : List A)
      → ((x : A) → P x → P (f x))
      → All P xs
      → All P (update_where p f xs)
  unfolding update_where
  All-update_where P p f [] h a = tt
  All-update_where P p f (x ∷ xs) h a = (head (p x), All-update_where P p f xs h a.1)
    where
      head : (b : Bool) → P (if b then f x else x)
      head true = h x a.0
      head false = a.0

  pub All-always {κ} : (P : A → Type κ) (xs : List A) → ((x : A) → P x) → All P xs
  All-always P [] h = tt
  All-always P (x ∷ xs) h = (h x, All-always P xs h)

  -- After an update that makes the test fail, no row passes it.
  pub All-updated :
      (p : A → Bool) (f : A → A) (xs : List A)
      → ((x : A) → p (f x) ≡ false)
      → All (λ (x : A). p x ≡ false) (update_where p f xs)
  unfolding update_where
  All-updated p f [] h = tt
  All-updated p f (x ∷ xs) h = (ground (arith, h x), All-updated p f xs h)

  pub All-update_where_cases {κ} :
      (P Q : A → Type κ) (p : A → Bool) (f : A → A) (xs : List A)
      → ((x : A) → P x → p x ≡ true → Q (f x))
      → ((x : A) → P x → p x ≡ false → Q x)
      → All P xs
      → All Q (update_where p f xs)
  unfolding update_where
  All-update_where_cases P Q p f [] hit miss a = tt
  All-update_where_cases P Q p f (x ∷ xs) hit miss a =
      (head (p x) refl, All-update_where_cases P Q p f xs hit miss a.1)
    where
      head : (b : Bool) → p x ≡ b → Q (if b then f x else x)
      head true e = hit x a.0 e
      head false e = miss x a.0 e

  pub length-delete_where : (p : A → Bool) (xs : List A) → length (delete_where p xs) ≤ length xs
  unfolding delete_where
  length-delete_where p [] = omega arith
  length-delete_where p (x ∷ xs) = ground (arith, length-delete_where p xs)

  pub length-delete_where_hit :
      (p : A → Bool) (xs : List A) → any p xs ≡ true → suc (length (delete_where p xs)) ≤ length xs
  unfolding delete_where any
  length-delete_where_hit p [] h = ground (arith, h)
  length-delete_where_hit p (x ∷ xs) h =
      ground (arith, h, length-delete_where p xs, length-delete_where_hit p xs)

  pub delete_where_none :
      (p : A → Bool) (xs : List A) → All (λ (x : A). p x ≡ false) xs → delete_where p xs ≡ xs
  unfolding delete_where
  delete_where_none p [] h = refl
  delete_where_none p (x ∷ xs) h = ground (arith, h.0, delete_where_none p xs h.1)

  pub any-delete_where :
      (p q : A → Bool) (xs : List A)
      → ((x : A) → p x ≡ true → q x ≡ false)
      → any q (delete_where p xs) ≡ any q xs
  unfolding delete_where any
  any-delete_where p q [] h = refl
  any-delete_where p q (x ∷ xs) h = ground (arith, h x, any-delete_where p q xs h)

  length-insert_by :
      (le : A → A → Bool) (x : A) (ys : List A) → length (insert_by le x ys) ≡ suc (length ys)
  unfolding insert_by
  length-insert_by le x [] = refl
  length-insert_by le x (y ∷ ys) = ground (arith, length-insert_by le x ys)

  pub length-sort_by : (le : A → A → Bool) (xs : List A) → length (sort_by le xs) ≡ length xs
  unfolding sort_by
  length-sort_by le [] = refl
  length-sort_by le (x ∷ xs) =
      ground (arith, length-insert_by le x (sort_by le xs), length-sort_by le xs)

  pub any_none : (p : A → Bool) (xs : List A) → All (λ (x : A). p x ≡ false) xs → any p xs ≡ false
  unfolding any
  any_none p [] h = refl
  any_none p (x ∷ xs) h = ground (arith, h.0, any_none p xs h.1)

  pub All-none : (p : A → Bool) (xs : List A) → any p xs ≡ false → All (λ (x : A). p x ≡ false) xs
  unfolding any
  All-none p [] h = tt
  All-none p (x ∷ xs) h = (ground (arith, h), All-none p xs (ground (arith, h)))

  pub count_none : (p : A → Bool) (xs : List A) → All (λ (x : A). p x ≡ false) xs → count p xs ≡ 0
  unfolding sum_by
  count_none p [] h = refl
  count_none p (x ∷ xs) h = ground (arith, h.0, count_none p xs h.1)

  -- An update that changes no row of a lookup.
  pub find_where-update_where_miss :
      (q p : A → Bool) (f : A → A) (xs : List A)
      → ((y : A) → q (f y) ≡ q y)
      → ((y : A) → p y ≡ true → q y ≡ false)
      → find_where q (update_where p f xs) ≡ find_where q xs
  unfolding find_where update_where
  find_where-update_where_miss q p f [] keeps apart = refl
  find_where-update_where_miss q p f (y ∷ ys) keeps apart =
      ground (arith, keeps y, apart y, find_where-update_where_miss q p f ys keeps apart)

  -- A lookup after an update finds what it found before, updated where the row passes the test.
  pub find_where-update_where_before :
      (q p : A → Bool) (f : A → A) (rows : List A) (new : A)
      → ((y : A) → q (f y) ≡ q y)
      → find_where q (update_where p f rows) ≡ some new
      → (old : A) × (find_where q rows ≡ some old) × (new ≡ (if p old then f old else old))
  unfolding find_where update_where
  find_where-update_where_before q p f [] new keeps h = ground (arith, h)
  find_where-update_where_before q p f (x ∷ xs) new keeps h = elim (Bool-cases (q x)) [
    | inl hit ↦ (x, ground (arith, hit), ground (arith, h, hit, keeps x))
    | inr miss ↦
        let (old, found, same) =
          find_where-update_where_before q p f xs new keeps (ground (arith, h, miss, keeps x)) in
        (old, ground (arith, miss, found), same)
  ]

  -- An update that meets no row changes nothing.
  pub update_where_none :
      (p : A → Bool) (f : A → A) (xs : List A) → any p xs ≡ false → update_where p f xs ≡ xs
  unfolding update_where any
  update_where_none p f [] h = refl
  update_where_none p f (x ∷ xs) h = ground (arith, h, update_where_none p f xs)

  pub All-append {κ} : (P : A → Type κ) (xs ys : List A) → All P xs → All P ys → All P (xs ++ ys)
  All-append P [] ys a b = b
  All-append P (x ∷ xs) ys a b = (a.0, All-append P xs ys a.1 b)

  pub All-map {κ} : (P Q : A → Type κ) (xs : List A) → ((x : A) → P x → Q x) → All P xs → All Q xs
  All-map P Q [] h a = tt
  All-map P Q (x ∷ xs) h a = (h x a.0, All-map P Q xs h a.1)

module _ {A : Type 0} ⦃e : Equality A⦄ where
  unfoldable pub contains : A → List A → Bool
  contains a [] = false
  contains a (x ∷ xs) = x == a || contains a xs

  -- `if !v.contains(&x) { v.push(x) }`
  unfoldable pub push_unique : A → List A → List A
  push_unique a xs = if contains a xs then xs else xs ++ (a ∷ [])
