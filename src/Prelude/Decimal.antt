-- ===== src/Prelude/Decimal.antt =====
-- The decimal digits of a number, as `format!` and `to_string` print it.
use Prim.Native.Nat.{ℕ, zero, suc, ◌+◌, ◌-◌, ◌*◌, ◌/◌, ◌%◌, ◌≤◌}
use mathlib.Core.Path.{◌≡◌, refl, sym, ap, ap₂, ◌∙◌}
use mathlib.Core.Logic.{inl, inr}
use mathlib.Core.List.{[], ◌∷◌, ◌++◌}
use native.Mathlib.Omega.{arith}
use ship_flow_tauri.Prelude.Tests.{ltb, if◌then◌else◌, Bool-cases}
use ship_flow_tauri.Prelude.Lists.{All}
use ship_flow_tauri.Prelude.Strings.{Text}

abbrev digit : ℕ → ℕ
digit n = 48 + n

-- A number has no more digits than its value, so the value is fuel enough.
unfoldable decimal_within : ℕ → ℕ → Text
decimal_within zero n = digit n ∷ []
decimal_within (suc fuel) n =
    let rest = decimal_within fuel (n / 10) in
    if ltb n 10 then digit n ∷ [] else rest ++ (digit (n % 10) ∷ [])

unfoldable pub decimal : ℕ → Text
unfolding decimal_within
decimal n = decimal_within n n

-- The number that a text of digits denotes, from an accumulator on.
unfoldable read_from : ℕ → Text → ℕ
read_from a [] = a
read_from a (c ∷ cs) = read_from (a * 10 + (c - 48)) cs

read_from-append : (a : ℕ) (s t : Text) → read_from a (s ++ t) ≡ read_from (read_from a s) t
unfolding read_from
read_from-append a [] t = refl
read_from-append a (c ∷ cs) t = read_from-append (a * 10 + (c - 48)) cs t

read_decimal_within : (fuel n : ℕ) → n ≤ fuel → read_from 0 (decimal_within fuel n) ≡ n
unfolding decimal_within read_from
read_decimal_within zero n le = omega (arith, le)
read_decimal_within (suc fuel) n le = elim (Bool-cases (ltb n 10)) [
  | inl one ↦ rw one (omega arith)
  | inr more ↦ rw more (
      read_from-append 0 (decimal_within fuel (n / 10)) (digit (n % 10) ∷ [])
      ∙ ground (arith, read_decimal_within fuel (n / 10) (ground (arith, le, more))))
]

pub decimal-injective : (m n : ℕ) → decimal m ≡ decimal n → m ≡ n
unfolding decimal
decimal-injective m n e =
    sym (read_decimal_within m m (omega arith))
    ∙ ap (read_from 0) e
    ∙ read_decimal_within n n (omega arith)

pub append-cancel : (p : Text) {s t : Text} → p ++ s ≡ p ++ t → s ≡ t
append-cancel [] e = e
append-cancel (x ∷ xs) {s} {t} e = let rest : xs ++ s ≡ xs ++ t = cc in append-cancel xs rest

pub append-ne : (p : Text) (c : ℕ) (s : Text) → p ≡ p ++ (c ∷ s) → ⊥
append-ne [] c s e = absurd (ground (arith, e))
append-ne (x ∷ xs) c s e = let rest : xs ≡ xs ++ (c ∷ s) = cc in append-ne xs c s rest

abbrev pub IsDigit : ℕ → Type 0
IsDigit c = (48 ≤ c) × (c ≤ 57)

All-append_digits : (s t : Text) → All IsDigit s → All IsDigit t → All IsDigit (s ++ t)
All-append_digits [] t a b = b
All-append_digits (c ∷ s) t a b = (a.0, All-append_digits s t a.1 b)

decimal_within-AreDigits : (fuel n : ℕ) → n ≤ fuel → All IsDigit (decimal_within fuel n)
unfolding decimal_within
decimal_within-AreDigits zero n le = ((omega arith, omega (arith, le)), tt)
decimal_within-AreDigits (suc fuel) n le = elim (Bool-cases (ltb n 10)) [
  | inl one ↦ rw one ((omega arith, ground (arith, one)), tt)
  | inr more ↦ rw more (
      All-append_digits (decimal_within fuel (n / 10)) (digit (n % 10) ∷ [])
        (decimal_within-AreDigits fuel (n / 10) (ground (arith, le, more)))
        ((omega arith, omega arith), tt))
]

pub decimal-AreDigits : (n : ℕ) → All IsDigit (decimal n)
unfolding decimal
decimal-AreDigits n = decimal_within-AreDigits n n (omega arith)

-- A text that ends a run of digits.
abbrev pub EndsDigits : Text → Type 0
EndsDigits [] = Unit
EndsDigits (c ∷ cs) = IsDigit c → ⊥

-- Two runs of digits that are followed by something else are the same where the texts are.
pub digits-cancel :
    (s t x y : Text)
    → All IsDigit s
    → All IsDigit t
    → EndsDigits x
    → EndsDigits y
    → s ++ x ≡ t ++ y
    → s ≡ t
digits-cancel [] [] x y a b ex ey e = refl
digits-cancel [] (d ∷ t) [] y a b ex ey e = absurd (ground (arith, e))
digits-cancel [] (d ∷ t) (c ∷ x) y a b ex ey e = let same : c ≡ d = cc in absurd (ex (rw same b.0))
digits-cancel (d ∷ s) [] x [] a b ex ey e = absurd (ground (arith, e))
digits-cancel (d ∷ s) [] x (c ∷ y) a b ex ey e = let same : c ≡ d = cc in absurd (ey (rw same a.0))
digits-cancel (c ∷ s) (d ∷ t) x y a b ex ey e =
    let first : c ≡ d = cc in
    let rest : s ++ x ≡ t ++ y = cc in
    ap₂ (λ z zs. z ∷ zs) first (digits-cancel s t x y a.1 b.1 ex ey rest)
