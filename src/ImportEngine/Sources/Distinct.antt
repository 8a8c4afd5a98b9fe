-- ===== src/ImportEngine/Sources/Distinct.antt =====
-- import_engine.rs: ids without duplicates, against a definition by clauses.
use ship_flow_tauri.Prelude.{
  ◌≤◌, Text, Bool, true, false, List, [], ◌∷◌, ◌++◌, ◌≡◌, refl, sym, subst, ap, ◌∙◌, ◌==◌, text_eq,
  text_beq_iff, not, ◌&&◌, ◌||◌, filter, Bool-cases, inl, inr, arith, length, append-nil,
  length-append, append_assoc, leb,
}
use ship_flow_tauri.Prelude.Trim.{trim}
use ship_flow_tauri.Prelude.Outcome.{ok}
use ship_flow_tauri.Prelude.Table.{contains}
use ship_flow_tauri.ImportEngine.{max_import_job_items}
use ship_flow_tauri.ImportEngine.Sources.{
  dedupe_loop, dedupe_non_empty, extend_loop, extend_unique_bounded,
}

abbrev pub differs_from : Text → Text → Bool
differs_from value other = not (other == value)

abbrev pub is_unseen : List Text → Text → Bool
is_unseen seen value = not (contains value seen)

-- The first occurrence of each text, in their order.
unfoldable pub first_occurrences : List Text → List Text
first_occurrences [] = []
first_occurrences (value ∷ values) = value ∷ filter (differs_from value) (first_occurrences values)

-- The texts as the engine reads them.
unfoldable pub cleaned : List Text → List Text
unfolding trim
cleaned [] = []
cleaned (given ∷ rest) =
    let later = cleaned rest in
    elim (trim given == []) [ true ↦ later | false ↦ trim given ∷ later ]

module _ (p q r : Text → Bool) where
  filter-filter :
      (values : List Text)
      → ((x : Text) → r x ≡ (q x && p x))
      → filter p (filter q values) ≡ filter r values
  unfolding filter
  filter-filter [] h = refl
  filter-filter (x ∷ xs) h = ground (arith, h x, filter-filter xs h)

-- A value that was seen adds nothing, and a new one is seen from then on.
unseen_first :
    (seen : List Text) (value : Text) (values : List Text)
    → contains value seen ≡ true
    → filter (is_unseen seen) (first_occurrences (value ∷ values))
      ≡ filter (is_unseen seen) (first_occurrences values)
unfolding first_occurrences filter
unseen_first seen value values known = rw known (
    filter-filter (is_unseen seen) (differs_from value) (is_unseen seen) (first_occurrences values)
      (λ x. ground (arith, known, text_beq_iff x value)))

unseen_new :
    (seen : List Text) (value : Text) (values : List Text)
    → contains value seen ≡ false
    → filter (is_unseen seen) (first_occurrences (value ∷ values))
      ≡ value ∷ filter (is_unseen (value ∷ seen)) (first_occurrences values)
unfolding first_occurrences filter contains
unseen_new seen value values new = rw new (
    ap (λ rest. value ∷ rest)
      (filter-filter (is_unseen seen) (differs_from value) (is_unseen (value ∷ seen))
        (first_occurrences values)
        (λ x. ground (arith, text_beq_iff x value, text_beq_iff value x))))

-- One turn of the loop, and of its description.
module _ (given : Text) (rest : List Text) where
  pub cleaned_empty : (trim given == []) ≡ true → cleaned (given ∷ rest) ≡ cleaned rest
  unfolding cleaned
  cleaned_empty e = rw (e, cleaned) refl

  pub cleaned_filled :
      (trim given == []) ≡ false → cleaned (given ∷ rest) ≡ trim given ∷ cleaned rest
  unfolding cleaned
  cleaned_filled e = rw (e, cleaned) refl

  dedupe_skips :
      (seen result : List Text)
      → (trim given == [] || contains (trim given) seen) ≡ true
      → dedupe_loop seen result (given ∷ rest) ≡ dedupe_loop seen result rest
  unfolding dedupe_loop
  dedupe_skips seen result e = rw (e, dedupe_loop) refl

  dedupe_pushes :
      (seen result : List Text)
      → (trim given == [] || contains (trim given) seen) ≡ false
      → dedupe_loop seen result (given ∷ rest)
        ≡ dedupe_loop (trim given ∷ seen) (result ++ (trim given ∷ [])) rest
  unfolding dedupe_loop
  dedupe_pushes seen result e = rw (e, dedupe_loop) refl

dedupe_loop-eq :
    (values seen result : List Text)
    → dedupe_loop seen result values
      ≡ result ++ filter (is_unseen seen) (first_occurrences (cleaned values))
unfolding dedupe_loop cleaned first_occurrences filter
dedupe_loop-eq [] seen result = sym (append-nil result)
dedupe_loop-eq (given ∷ rest) seen result =
    let value = trim given in
    elim (Bool-cases (value == [])) [
      | inl empty ↦
          dedupe_skips given rest seen result (ground (arith, empty))
          ∙ dedupe_loop-eq rest seen result
          ∙ ap (λ texts. result ++ filter (is_unseen seen) (first_occurrences texts))
              (sym (cleaned_empty given rest empty))
      | inr filled ↦
          let as_read =
            ap (λ texts. result ++ filter (is_unseen seen) (first_occurrences texts))
              (sym (cleaned_filled given rest filled)) in
          elim (Bool-cases (contains value seen)) [
            | inl known ↦
                dedupe_skips given rest seen result (ground (arith, known))
                ∙ dedupe_loop-eq rest seen result
                ∙ ap (λ more. result ++ more) (sym (unseen_first seen value (cleaned rest) known))
                ∙ as_read
            | inr new ↦
                dedupe_pushes given rest seen result (ground (arith, filled, new))
                ∙ dedupe_loop-eq rest (value ∷ seen) (result ++ (value ∷ []))
                ∙ append_assoc result (value ∷ []) _
                ∙ ap (λ more. result ++ more) (sym (unseen_new seen value (cleaned rest) new))
                ∙ as_read
          ]
    ]

-- No text comes twice.
abbrev pub IsDistinct : List Text → Type 0
IsDistinct [] = Unit
IsDistinct (value ∷ values) = (contains value values ≡ false) × IsDistinct values

contains-filter :
    (p : Text → Bool) (x : Text) (values : List Text)
    → contains x (filter p values) ≡ (p x && contains x values)
unfolding contains filter
contains-filter p x [] = ground arith
contains-filter p x (y ∷ ys) = elim (Bool-cases (y == x)) [
  | inl same ↦
      let e : y ≡ x = (text_beq_iff y x).0 same in ground (arith, e, same, contains-filter p x ys)
  | inr other ↦ ground (arith, other, contains-filter p x ys)
]

pub contains-append :
    (x : Text) (xs ys : List Text) → contains x (xs ++ ys) ≡ (contains x xs || contains x ys)
unfolding contains
contains-append x [] ys = refl
contains-append x (y ∷ xs) ys = ground (arith, contains-append x xs ys)

filter-IsDistinct :
    (p : Text → Bool) (values : List Text) → IsDistinct values → IsDistinct (filter p values)
unfolding filter
filter-IsDistinct p [] h = tt
filter-IsDistinct p (x ∷ xs) h = elim (Bool-cases (p x)) [
  | inl keep ↦ rw keep (ground (arith, contains-filter p x xs, h.0), filter-IsDistinct p xs h.1)
  | inr drop ↦ rw drop (filter-IsDistinct p xs h.1)
]

pub first_occurrences-IsDistinct : (values : List Text) → IsDistinct (first_occurrences values)
unfolding first_occurrences
first_occurrences-IsDistinct [] = tt
first_occurrences-IsDistinct (x ∷ xs) = (
  ground (arith, contains-filter (differs_from x) x (first_occurrences xs), text_beq_iff x x),
  filter-IsDistinct (differs_from x) (first_occurrences xs) (first_occurrences-IsDistinct xs),
)

pub contains-first_occurrences :
    (x : Text) (values : List Text) → contains x (first_occurrences values) ≡ contains x values
unfolding first_occurrences contains
contains-first_occurrences x [] = refl
contains-first_occurrences x (y ∷ ys) = ground (
  arith,
  contains-filter (differs_from y) x (first_occurrences ys),
  contains-first_occurrences x ys,
  text_beq_iff x y,
  text_beq_iff y x,
)

filter-unseen_none : (values : List Text) → filter (is_unseen []) values ≡ values
unfolding filter contains
filter-unseen_none [] = refl
filter-unseen_none (x ∷ xs) = ground (arith, filter-unseen_none xs)

-- The loop over a set of seen ids keeps the first occurrence of each id, trimmed, in their order,
-- and leaves blank ids out.
pub dedupe_non_empty-eq :
    (values : List Text) → dedupe_non_empty values ≡ first_occurrences (cleaned values)
unfolding dedupe_non_empty
dedupe_non_empty-eq values =
    dedupe_loop-eq values [] [] ∙ filter-unseen_none (first_occurrences (cleaned values))

unseen_nil : (seen : List Text) → filter (is_unseen seen) (first_occurrences []) ≡ []
unfolding filter first_occurrences
unseen_nil seen = refl

-- An extension of distinct ids: what it adds, within the limit.
extend_loop-eq :
    (values seen target result : List Text)
    → extend_loop seen target values ≡ ok result
    → (result ≡ target ++ filter (is_unseen seen) (first_occurrences values))
      × (length target ≤ max_import_job_items → length result ≤ max_import_job_items)
unfolding extend_loop
extend_loop-eq [] seen target result h =
    let e : target ≡ result = ground (arith, h) in
    (
      sym e ∙ sym (append-nil target) ∙ ap (λ more. target ++ more) (sym (unseen_nil seen)),
      λ bound. subst (λ ids. length ids ≤ max_import_job_items) e bound,
    )
extend_loop-eq (value ∷ values) seen target result h = elim (Bool-cases (contains value seen)) [
  | inl known ↦
      let (later, bound) =
        extend_loop-eq values seen target result (rw (known, extend_loop) at h) in
      (later ∙ ap (λ more. target ++ more) (sym (unseen_first seen value values known)), bound)
  | inr new ↦ elim (Bool-cases (leb max_import_job_items (length target))) [
    | inl full ↦ let refused = rw (new, full, extend_loop) at h in absurd (ground (arith, refused))
    | inr room ↦
        let (later, bound) =
          extend_loop-eq values (value ∷ seen) (target ++ (value ∷ [])) result
            (rw (new, room, extend_loop) at h) in
        (
          later
              ∙ append_assoc target (value ∷ []) _
              ∙ ap (λ more. target ++ more) (sym (unseen_new seen value values new)),
          λ _. bound (ground (arith, room, length-append target (value ∷ []))),
        )
  ]
]

pub extend_unique_bounded-eq :
    (target values result : List Text)
    → extend_unique_bounded target values ≡ ok result
    → (result ≡ target ++ filter (is_unseen target) (first_occurrences values))
      × (length target ≤ max_import_job_items → length result ≤ max_import_job_items)
unfolding extend_unique_bounded
extend_unique_bounded-eq target values result h = extend_loop-eq values target target result h

append-IsDistinct :
    (xs ys : List Text)
    → IsDistinct xs
    → IsDistinct ys
    → ((x : Text) → contains x xs ≡ true → contains x ys ≡ false)
    → IsDistinct (xs ++ ys)
unfolding contains
append-IsDistinct [] ys hx hy apart = hy
append-IsDistinct (x ∷ xs) ys hx hy apart = (
  ground (arith, contains-append x xs ys, hx.0, apart x, text_beq_iff x x),
  append-IsDistinct xs ys hx.1 hy (λ z m. apart z (ground (arith, m))),
)

-- An extension of distinct ids that succeeds gives distinct ids, those of both lists, and stays
-- within the limit.
pub extend_unique_bounded-IsDistinct :
    (target values result : List Text)
    → extend_unique_bounded target values ≡ ok result
    → IsDistinct target
    → IsDistinct result
      × ((x : Text) → contains x result ≡ (contains x target || contains x values))
      × (length target ≤ max_import_job_items → length result ≤ max_import_job_items)
extend_unique_bounded-IsDistinct target values result h distinct =
    let (e, bound) = extend_unique_bounded-eq target values result h in
    let more = filter (is_unseen target) (first_occurrences values) in
    (
      subst IsDistinct (sym e) (
          append-IsDistinct target more distinct
            (filter-IsDistinct (is_unseen target) (first_occurrences values)
              (first_occurrences-IsDistinct values))
            (λ x m.
              ground (arith, m, contains-filter (is_unseen target) x (first_occurrences values)))),
      λ x.
          ap (contains x) e
          ∙ ground (
            arith,
            contains-append x target more,
            contains-filter (is_unseen target) x (first_occurrences values),
            contains-first_occurrences x values,
          ),
      bound,
    )
