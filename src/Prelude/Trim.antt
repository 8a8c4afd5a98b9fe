-- ===== src/Prelude/Trim.antt =====
-- `str::trim` on the UTF-8 bytes of a string: the characters of the property White_Space take one,
-- two or three bytes. A byte string that ends with the bytes of a character of a valid string ends
-- with that character, so the end is stripped as the start of the reversed bytes.
use Prim.Native.Nat.{ℕ}
use mathlib.Core.Path.{◌≡◌, refl, ◌∙◌}
use mathlib.Core.Bool.{Bool, true, false, not, ◌&&◌, ◌||◌}
use mathlib.Core.List.{[], ◌∷◌, ◌++◌, append-nil}
use native.Mathlib.Omega.{arith}
use ship_flow_tauri.Prelude.Lists.{All}
use ship_flow_tauri.Prelude.Tests.{leb}
use ship_flow_tauri.Prelude.Strings.{Text, ◌==◌, nat_eq}

abbrev is_space_1 : ℕ → Bool
is_space_1 a = leb 9 a && leb a 13 || a == 32

-- U+0085 and U+00A0.
abbrev is_space_2 : ℕ → ℕ → Bool
is_space_2 a b = a == 194 && (b == 133 || b == 160)

-- U+1680, U+2000 to U+200A, U+2028, U+2029, U+202F, U+205F and U+3000.
abbrev is_space_3 : ℕ → ℕ → ℕ → Bool
is_space_3 a b c =
    a == 225 && (b == 154 && c == 128)
    || (a == 226 && (b == 128 && (leb 128 c && leb c 138 || (c == 168 || (c == 169 || c == 175))))
        || (a == 226 && (b == 129 && c == 159) || a == 227 && (b == 128 && c == 128)))

-- The text without the characters that the three tests take off its start.
unfoldable strip : (ℕ → Bool) → (ℕ → ℕ → Bool) → (ℕ → ℕ → ℕ → Bool) → Text → Text
strip p q r [] = []
strip p q r (a ∷ []) = elim (p a) [ true ↦ [] | false ↦ a ∷ [] ]
strip p q r (a ∷ b ∷ []) = elim (p a) [
  | true ↦ strip p q r (b ∷ [])
  | false ↦ elim (q a b) [ true ↦ [] | false ↦ a ∷ b ∷ [] ]
]
strip p q r (a ∷ b ∷ c ∷ rest) = elim (p a) [
  | true ↦ strip p q r (b ∷ c ∷ rest)
  | false ↦ elim (q a b) [
    | true ↦ strip p q r (c ∷ rest)
    | false ↦ elim (r a b c) [ true ↦ strip p q r rest | false ↦ a ∷ b ∷ c ∷ rest ]
  ]
]

unfoldable reverse_onto : Text → Text → Text
reverse_onto [] done = done
reverse_onto (c ∷ cs) done = reverse_onto cs (c ∷ done)

unfoldable pub trim : Text → Text
unfolding strip reverse_onto
trim text =
    let started = strip is_space_1 is_space_2 is_space_3 text in
    reverse_onto
      (strip is_space_1 (λ b a. is_space_2 a b) (λ c b a. is_space_3 a b c)
        (reverse_onto started []))
      []

-- A byte of ASCII that is no white space.
abbrev pub is_plain : ℕ → Bool
is_plain c = leb c 127 && not (is_space_1 c)

strip_front :
    (text : Text)
    → All (λ (c : ℕ). is_plain c ≡ true) text
    → strip is_space_1 is_space_2 is_space_3 text ≡ text
unfolding strip
strip_front [] h = refl
strip_front (a ∷ []) h = ground (arith, h.0)
strip_front (a ∷ b ∷ []) h = ground (arith, h.0)
strip_front (a ∷ b ∷ c ∷ rest) h = ground (arith, h.0)

strip_back :
    (text : Text)
    → All (λ (c : ℕ). is_plain c ≡ true) text
    → strip is_space_1 (λ b a. is_space_2 a b) (λ c b a. is_space_3 a b c) text ≡ text
unfolding strip
strip_back [] h = refl
strip_back (a ∷ []) h = ground (arith, h.0)
strip_back (a ∷ b ∷ []) h = ground (arith, h.0, h.1.0)
strip_back (a ∷ b ∷ c ∷ rest) h = ground (arith, h.0, h.1.0, h.1.1.0)

reverse_twice :
    (text done more : Text)
    → reverse_onto (reverse_onto text done) more ≡ reverse_onto done (text ++ more)
unfolding reverse_onto
reverse_twice [] done more = refl
reverse_twice (c ∷ cs) done more = reverse_twice cs (c ∷ done) more

All-reverse_onto {κ} :
    (P : ℕ → Type κ) (text done : Text) → All P text → All P done → All P (reverse_onto text done)
unfolding reverse_onto
All-reverse_onto P [] done h k = k
All-reverse_onto P (c ∷ cs) done h k = All-reverse_onto P cs (c ∷ done) h.1 (h.0, k)

-- A text without white space and without characters of several bytes is left as it is.
pub trim_plain : (text : Text) → All (λ (c : ℕ). is_plain c ≡ true) text → trim text ≡ text
unfolding trim reverse_onto
trim_plain text plain = rw (strip_front text plain) (
    rw (strip_back (reverse_onto text []) (All-reverse_onto _ text [] plain tt))
      (reverse_twice text [] [] ∙ append-nil text))

trims_both_ends : trim (32 ∷ 65 ∷ 32 ∷ 66 ∷ 194 ∷ 160 ∷ 9 ∷ []) ≡ 65 ∷ 32 ∷ 66 ∷ []
unfolding trim
trims_both_ends = refl
