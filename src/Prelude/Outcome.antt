-- ===== src/Prelude/Outcome.antt =====
-- Results of fallible code, with the error type as a parameter, and chains of them.
use mathlib.Core.Path.{◌≡◌, refl}
use mathlib.Core.Logic.{◌⊎◌, inl, inr}
use mathlib.Core.Bool.{Bool, true, false}
use mathlib.Core.Option.{Option}

pub data Outcome {ℓ} (E : Type 0) (A : Type ℓ) : Type ℓ where
  ok : A → Outcome E A
  err : E → Outcome E A

infixl 5 ◌>>=◌ ◌>>◌
abbrev pub ◌>>=◌ {ℓ κ} :
    {E : Type 0} {A : Type ℓ} {B : Type κ} → Outcome E A → (A → Outcome E B) → Outcome E B
err problem >>= next = err problem
ok value >>= next = next value

abbrev pub ◌>>◌ {κ} : {E : Type 0} {B : Type κ} → Outcome E (Unit {0}) → Outcome E B → Outcome E B
first >> second = first >>= λ _. second

-- An early return with an error where a test fails.
abbrev pub guard : {E : Type 0} → Bool → E → Outcome E (Unit {0})
guard passed problem = elim passed [ true ↦ ok tt | false ↦ err problem ]

abbrev pub or_fail {ℓ} : {E : Type 0} {A : Type ℓ} → Option A → E → Outcome E A
or_fail Option.none e = err e
or_fail (Option.some a) e = ok a

-- Where a chain succeeds, its first part does, and the rest does on the value of the first.
pub >>=-eq-ok {ℓ κ} :
    {E : Type 0} {A : Type ℓ} {B : Type κ} (first : Outcome E A) (next : A → Outcome E B) {b : B}
    → (first >>= next) ≡ ok b
    → (value : A) × (first ≡ ok value) × (next value ≡ ok b)
>>=-eq-ok (err problem) next h = cc
>>=-eq-ok (ok value) next h = (value, refl, h)

-- Where a chain that starts with a lookup succeeds, the lookup found something.
pub or_fail->>=-eq-ok {ℓ κ} :
    {E : Type 0} {A : Type ℓ} {B : Type κ} (o : Option A) (e : E) {f : A → Outcome E B} {b : B}
    → (or_fail o e >>= f) ≡ ok b
    → (a : A) × (o ≡ Option.some a) × (f a ≡ ok b)
or_fail->>=-eq-ok (Option.some a) e h = (a, refl, h)
or_fail->>=-eq-ok Option.none e h = cc

-- Where a chain that starts with a test succeeds, the test holds.
pub guard->>-eq-ok {κ} :
    {E : Type 0} {B : Type κ} (c : Bool) (e : E) {m : Outcome E B} {b : B}
    → (guard c e >> m) ≡ ok b
    → (c ≡ true) × (m ≡ ok b)
guard->>-eq-ok true e h = (refl, h)
guard->>-eq-ok false e h = cc

pub ok-injective {ℓ} :
    {E : Type 0} {A : Type ℓ} {a b : A} → ◌≡◌ {A = Outcome E A} (ok a) (ok b) → a ≡ b
ok-injective h = cc

pub Outcome-cases {ℓ} :
    {E : Type 0} {A : Type ℓ} (r : Outcome E A)
    → ((problem : E) × (r ≡ err problem)) ⊎ ((value : A) × (r ≡ ok value))
Outcome-cases (err problem) = inl (problem, refl)
Outcome-cases (ok value) = inr (value, refl)
