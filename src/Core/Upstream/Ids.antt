-- ===== src/Core/Upstream/Ids.antt =====
-- upstream.rs: the ids that are sent upstream.
use ship_flow_tauri.Prelude.{
  ℕ, ◌≤◌, Text, Bool, true, false, [], ◌∷◌, ◌≡◌, refl, ap₂, subst, ◌==◌, text_eq, text_beq, not,
  ◌&&◌, All, map, length, leb, leb→le, le→leb, arith,
}
use ship_flow_tauri.Prelude.Trim.{trim, is_plain, trim_plain}
use ship_flow_tauri.Prelude.Table.{any, All-none, any_none, All-map}
use ship_flow_tauri.Prelude.Outcome.{ok, guard->>-eq-ok, ok-injective}
use ship_flow_tauri.Core.Model.{LookupKind}
use ship_flow_tauri.Core.Upstream.{
  is_id_char, is_lower, ascii_upper, max_lookup_id_length, normalize_lookup_id,
}

-- An id as it is sent upstream: capital letters, digits, hyphens and periods.
abbrev pub is_upstream_char : ℕ → Bool
is_upstream_char c = is_id_char c && not (is_lower c)

abbrev pub IsUpstreamId : Text → Type 0
IsUpstreamId id =
    (1 ≤ length id)
    × (length id ≤ max_lookup_id_length)
    × All (λ (c : ℕ). is_upstream_char c ≡ true) id

upper-is_upstream_char : (c : ℕ) → is_id_char c ≡ true → is_upstream_char (ascii_upper c) ≡ true
upper-is_upstream_char c h = ground (arith, h)

all_upper :
    (text : Text)
    → All (λ (c : ℕ). not (is_id_char c) ≡ false) text
    → All (λ (c : ℕ). is_upstream_char c ≡ true) (map ascii_upper text)
all_upper [] h = tt
all_upper (c ∷ cs) h = (upper-is_upstream_char c (ground (arith, h.0)), all_upper cs h.1)

length-map_upper : (text : Text) → length (map ascii_upper text) ≡ length text
length-map_upper [] = refl
length-map_upper (c ∷ cs) = omega (arith, length-map_upper cs)

some_length : (text : Text) → not (text == []) ≡ true → 1 ≤ length text
unfolding text_beq
some_length [] h = ground (arith, h)
some_length (c ∷ cs) h = omega arith

upper_stays : (id : Text) → All (λ (c : ℕ). is_upstream_char c ≡ true) id → map ascii_upper id ≡ id
upper_stays [] h = refl
upper_stays (c ∷ cs) h =
    let e : ascii_upper c ≡ c = ground (arith, h.0) in ap₂ (λ x xs. x ∷ xs) e (upper_stays cs h.1)

not_empty : (id : Text) → 1 ≤ length id → not (id == []) ≡ true
unfolding text_beq
not_empty [] h = ground (arith, h)
not_empty (c ∷ cs) h = refl

-- An upstream id is normalised to itself.
sent_again : (id : Text) (kind : LookupKind) → IsUpstreamId id → normalize_lookup_id id kind ≡ ok id
unfolding normalize_lookup_id
sent_again id kind (some_bytes, few_bytes, chars) =
    let same : trim id ≡ id =
      trim_plain id (All-map _ (λ c. is_plain c ≡ true) id (λ c h. ground (arith, h)) chars) in
    let allowed : any (λ c. not (is_id_char c)) id ≡ false =
      any_none (λ c. not (is_id_char c)) id (All-map _ _ id (λ c h. ground (arith, h)) chars) in
    rw same (
      rw (not_empty id some_bytes) (
        rw (le→leb (length id) max_lookup_id_length few_bytes)
          (rw allowed (rw (upper_stays id chars) refl))))

-- An id that is accepted has 1 to 64 capital letters, digits, hyphens and periods, and it is accepted
-- again, as a shipment, bag or manifest, and unchanged.
pub normalize_lookup_id-IsUpstreamId :
    (input : Text) (kind other : LookupKind) (id : Text)
    → normalize_lookup_id input kind ≡ ok id
    → IsUpstreamId id × (normalize_lookup_id id other ≡ ok id)
unfolding normalize_lookup_id
normalize_lookup_id-IsUpstreamId input kind other id h =
    let trimmed = trim input in
    let (filled, h1) = guard->>-eq-ok (not (trimmed == [])) _ h in
    let (short, h2) = guard->>-eq-ok (leb (length trimmed) max_lookup_id_length) _ h1 in
    let (allowed, h3) = guard->>-eq-ok (not (any (λ c. not (is_id_char c)) trimmed)) _ h2 in
    let e : map ascii_upper trimmed ≡ id = ok-injective h3 in
    let same_length : length id ≡ length trimmed =
      subst (λ x. length x ≡ length trimmed) e (length-map_upper trimmed) in
    let sent : IsUpstreamId id = (
      omega (arith, same_length, some_length trimmed filled),
      omega (arith, same_length, leb→le (length trimmed) max_lookup_id_length short),
      subst (All (λ (c : ℕ). is_upstream_char c ≡ true)) e (
          all_upper trimmed (All-none (λ c. not (is_id_char c)) trimmed (ground (arith, allowed)))),
    ) in
    (sent, sent_again id other sent)
