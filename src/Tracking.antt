-- ===== src/Tracking.antt =====
-- crates/shipflow-workspace-engine/src/tracking.rs: the id that a displayed tracking id is looked up
-- by.
pub mod Rows
pub mod Batches
pub mod Answers
pub mod Refreshed
mod Tests
use ship_flow_tauri.Prelude.{
  ℕ, ◌≤◌, Text, Bool, true, false, Option, none, some, List, [], ◌∷◌, ◌++◌, ◌≡◌, ◌⊎◌, inl, inr,
  refl, ap, ap₂, sym, ◌∙◌, ◌==◌, nat_eq, text_eq, text_beq, leb, not, ◌&&◌, ◌||◌, nat_beq_iff,
  Bool-cases, Option-cases, if◌then◌else◌, arith,
}
use ship_flow_tauri.Prelude.Trim.{trim}

pub data TrackingIdResolution : Type 0 where
  exact stripped_numeric_suffix : TrackingIdResolution

pub record ResolvedTrackingId : Type 0 where
  pub display_id : Text
  pub lookup_id : Text
  pub resolution : TrackingIdResolution

-- The parts of a text from those of its tail.
rsplit_step : ℕ → ℕ → Text → Option (Text × Text) → Option (Text × Text)
rsplit_step separator c cs none = if c == separator then some ([], cs) else none
rsplit_step separator c cs (some (base, suffix)) = some (c ∷ base, suffix)

-- The two sides of the last separator.
unfoldable pub rsplit_once : ℕ → Text → Option (Text × Text)
unfolding rsplit_step
rsplit_once separator [] = none
rsplit_once separator (c ∷ cs) = rsplit_step separator c cs (rsplit_once separator cs)

unfoldable pub is_ascii_digits : Text → Bool
is_ascii_digits [] = true
is_ascii_digits (c ∷ cs) = (leb 48 c && leb c 57) && is_ascii_digits cs

abbrev exact_id : Text → ResolvedTrackingId
exact_id display_id = record {
  display_id = display_id;
  lookup_id = display_id;
  resolution = TrackingIdResolution.exact;
}

unfoldable pub resolve_parts : Text → Option (Text × Text) → ResolvedTrackingId
unfolding is_ascii_digits
resolve_parts display_id none = exact_id display_id
resolve_parts display_id (some (base, suffix)) =
    if not (base == []) && (not (suffix == []) && is_ascii_digits suffix)
    then record {
      display_id = display_id;
      lookup_id = base;
      resolution = TrackingIdResolution.stripped_numeric_suffix;
    }
    else exact_id display_id

unfoldable pub resolve_tracking_id : Text → ResolvedTrackingId
unfolding trim rsplit_once resolve_parts
resolve_tracking_id display_id =
    resolve_parts (trim display_id) (rsplit_once b'.' (trim display_id))

rsplit_step-append :
    (separator c : ℕ) (cs : Text) (o : Option (Text × Text)) (base suffix : Text)
    → ((left right : Text) → o ≡ some (left, right) → cs ≡ left ++ (separator ∷ right))
    → rsplit_step separator c cs o ≡ some (base, suffix)
    → c ∷ cs ≡ base ++ (separator ∷ suffix)
unfolding rsplit_step
rsplit_step-append separator c cs none base suffix tail h = elim (Bool-cases (c == separator)) [
  | inl same ↦
      let h' = rw same at h in
      let left : [] ≡ base = cc in
      let right : cs ≡ suffix = cc in
      let e : c ≡ separator = (nat_beq_iff c separator).0 same in
      rw (sym left) (ap₂ (λ x xs. x ∷ xs) e right)
  | inr other ↦ let h' = rw other at h in absurd (ground (arith, h'))
]
rsplit_step-append separator c cs (some (left, right)) base suffix tail h =
    let front : c ∷ left ≡ base = cc in
    let back : right ≡ suffix = cc in
    rw (sym front) (rw (sym back) (ap (λ rest. c ∷ rest) (tail left right refl)))

rsplit_once-append :
    (separator : ℕ) (text base suffix : Text)
    → rsplit_once separator text ≡ some (base, suffix)
    → text ≡ base ++ (separator ∷ suffix)
unfolding rsplit_once
rsplit_once-append separator [] base suffix h = absurd (ground (arith, h))
rsplit_once-append separator (c ∷ cs) base suffix h =
    rsplit_step-append separator c cs (rsplit_once separator cs) base suffix
      (λ left right. rsplit_once-append separator cs left right) h

is_nonempty : Text → Bool
is_nonempty [] = false
is_nonempty (c ∷ cs) = true

-- Whether a dot stands somewhere with digits, one at least, and nothing else after it.
unfoldable pub has_dotted_digits : Text → Bool
unfolding is_nonempty
has_dotted_digits [] = false
has_dotted_digits (c ∷ cs) =
    (c == b'.' && (is_nonempty cs && is_ascii_digits cs)) || has_dotted_digits cs

-- The same, behind a first byte that is kept.
unfoldable pub has_numeric_suffix : Text → Bool
has_numeric_suffix [] = false
has_numeric_suffix (c ∷ cs) = has_dotted_digits cs

-- A resolution of a displayed id: with a numeric suffix, the id without it, and else the id itself.
abbrev pub IsResolved : Text → ResolvedTrackingId → Type 0
IsResolved text resolved =
    (resolved.display_id ≡ text)
    × (((has_numeric_suffix text ≡ false)
          × (resolved.resolution ≡ TrackingIdResolution.exact)
          × (resolved.lookup_id ≡ text))
        ⊎ ((suffix : Text) × (has_numeric_suffix text ≡ true)
            × (resolved.resolution ≡ TrackingIdResolution.stripped_numeric_suffix)
            × (text ≡ resolved.lookup_id ++ (b'.' ∷ suffix))
            × (is_ascii_digits suffix ≡ true)
            × ((suffix == []) ≡ false)
            × ((resolved.lookup_id == []) ≡ false)))

digits_dot : (base suffix : Text) → is_ascii_digits (base ++ (b'.' ∷ suffix)) ≡ false
unfolding is_ascii_digits
digits_dot [] suffix = refl
digits_dot (c ∷ cs) suffix = ground (arith, digits_dot cs suffix)

abbrev numeric_after : Option (Text × Text) → Bool
numeric_after none = false
numeric_after (some (base, suffix)) = is_nonempty suffix && is_ascii_digits suffix

dotted_step :
    (c : ℕ) (cs : Text) (o : Option (Text × Text))
    → ((left right : Text) → o ≡ some (left, right) → cs ≡ left ++ (b'.' ∷ right))
    → has_dotted_digits cs ≡ numeric_after o
    → has_dotted_digits (c ∷ cs) ≡ numeric_after (rsplit_step b'.' c cs o)
unfolding has_dotted_digits rsplit_step
dotted_step c cs none tail h = ground (arith, h)
dotted_step c cs (some (left, right)) tail h =
    let e : is_ascii_digits cs ≡ false =
      ap is_ascii_digits (tail left right refl) ∙ digits_dot left right in
    ground (arith, h, e)

dotted-eq : (text : Text) → has_dotted_digits text ≡ numeric_after (rsplit_once b'.' text)
unfolding has_dotted_digits rsplit_once
dotted-eq [] = refl
dotted-eq (c ∷ cs) =
    dotted_step c cs (rsplit_once b'.' cs) (λ left right. rsplit_once-append b'.' cs left right)
      (dotted-eq cs)

-- The test of `resolve_parts`.
abbrev is_stripped : Option (Text × Text) → Bool
is_stripped none = false
is_stripped (some (base, suffix)) =
    not (base == []) && (not (suffix == []) && is_ascii_digits suffix)

stripped_step :
    (c : ℕ) (cs : Text) (o : Option (Text × Text))
    → numeric_after o ≡ is_stripped (rsplit_step b'.' c cs o)
unfolding rsplit_step is_nonempty text_beq
stripped_step c cs none = ground arith
stripped_step c cs (some (left, [])) = ground arith
stripped_step c cs (some (left, d ∷ ds)) = ground arith

suffix-eq : (text : Text) → has_numeric_suffix text ≡ is_stripped (rsplit_once b'.' text)
unfolding has_numeric_suffix rsplit_once
suffix-eq [] = refl
suffix-eq (c ∷ cs) = dotted-eq cs ∙ stripped_step c cs (rsplit_once b'.' cs)

resolve_parts-IsResolved :
    (text : Text) (o : Option (Text × Text))
    → rsplit_once b'.' text ≡ o
    → has_numeric_suffix text ≡ is_stripped o
    → IsResolved text (resolve_parts text o)
unfolding resolve_parts
resolve_parts-IsResolved text none h e = (refl, inl (e, refl, refl))
resolve_parts-IsResolved text (some (base, suffix)) h e =
    elim (Bool-cases (not (base == []) && (not (suffix == []) && is_ascii_digits suffix))) [
      | inl numeric ↦ rw numeric (
        refl,
        inr (
          suffix,
          e ∙ numeric,
          refl,
          rsplit_once-append b'.' text base suffix h,
          ground (arith, numeric),
          ground (arith, numeric),
          ground (arith, numeric),
        ),
      )
      | inr other ↦ rw other (refl, inl (e ∙ other, refl, refl))
    ]

-- A displayed id, trimmed, that ends with a dot and digits after at least one other byte is looked up
-- without them; every other is looked up as it is. The displayed id itself is kept, trimmed.
pub resolve_tracking_id-IsResolved :
    (display_id : Text) → IsResolved (trim display_id) (resolve_tracking_id display_id)
unfolding resolve_tracking_id
resolve_tracking_id-IsResolved display_id =
    resolve_parts-IsResolved (trim display_id) (rsplit_once b'.' (trim display_id)) refl
      (suffix-eq (trim display_id))
