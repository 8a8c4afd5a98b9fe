-- ===== src/Prelude/Strings.antt =====
-- A string is the list of its UTF-8 bytes, so `len()` is the length of the list. Equality is an
-- interface with instances for numbers and texts.
use Prim.Native.Nat.{ℕ}
use Prim.Native.Char.{code}
use Prim.Native.String.{String}
use mathlib.Core.Path.{◌≡◌, refl}
use mathlib.Core.Logic.{◌↔◌}
use mathlib.Core.Bool.{Bool, true, false, ◌&&◌}
use mathlib.Core.List.{List, [], ◌∷◌}
use native.Mathlib.Omega.{arith}
use ship_flow_tauri.Prelude.Tests.{nat_beq, nat_beq_iff, ltb, if◌then◌else◌}

abbrev pub Text : Type 0
Text = List ℕ

-- The bytes of an ASCII literal.
abbrev pub bytes : String → Text
bytes String.[] = []
bytes (String.◌∷◌ c s) = code c ∷ bytes s

unfoldable pub text_beq : Text → Text → Bool
text_beq [] [] = true
text_beq [] (y ∷ ys) = false
text_beq (x ∷ xs) [] = false
text_beq (x ∷ xs) (y ∷ ys) = nat_beq x y && text_beq xs ys

text_eq_of_beq : (s t : Text) → text_beq s t ≡ true → s ≡ t
unfolding text_beq
text_eq_of_beq [] [] h = refl
text_eq_of_beq [] (y ∷ ys) h = ground arith
text_eq_of_beq (x ∷ xs) [] h = ground arith
text_eq_of_beq (x ∷ xs) (y ∷ ys) h = ground (arith, text_eq_of_beq xs ys)

pub text_refl : (s : Text) → text_beq s s ≡ true
unfolding text_beq
text_refl [] = refl
text_refl (x ∷ xs) = ground (arith, text_refl xs)

pub text_beq_iff : (s t : Text) → (text_beq s t ≡ true) ↔ (s ≡ t)
text_beq_iff s t = (text_eq_of_beq s t, λ e. ground (arith, text_refl s, e))

-- The order of byte strings: that of `Ord for str`, and of SQLite's TEXT columns.
pub text_le : Text → Text → Bool
text_le [] ys = true
text_le (x ∷ xs) [] = false
text_le (x ∷ xs) (y ∷ ys) =
    let rest = text_le xs ys in if ltb x y then true else if ltb y x then false else rest

pub record Equality {ℓ} (A : Type ℓ) : Type ℓ where
  pub equal : A → A → Bool
  pub equal_iff : (a b : A) → (equal a b ≡ true) ↔ (a ≡ b)

infix 50 ◌==◌
abbrev pub ◌==◌ {ℓ} : {A : Type ℓ} ⦃e : Equality A⦄ → A → A → Bool
◌==◌ ⦃e⦄ = e.equal

instance abbrev pub nat_eq : Equality ℕ
nat_eq = record { equal = nat_beq; equal_iff = nat_beq_iff }

instance abbrev pub text_eq : Equality Text
text_eq = record { equal = text_beq; equal_iff = text_beq_iff }

pub text_ne_sym : (s t : Text) → text_beq s t ≡ false → text_beq t s ≡ false
text_ne_sym s t h = ground (arith, text_beq_iff s t, text_beq_iff t s)
