-- ===== src/LookupCache/Entry/Keys.antt =====
-- lookup_cache.rs: cache keys, and errors to and from the cache.
use ship_flow_tauri.Prelude.{Text, bytes, [], ◌∷◌, ◌++◌, ◌≡◌, ◌≢◌, refl, sym, subst, All, arith}
use ship_flow_tauri.Core.Model.{LookupKind}
use ship_flow_tauri.LookupCache.Entry.{build_cache_key}

abbrev pub HasNoColon : Text → Type 0
HasNoColon s = All (λ c. c ≢ b':') s

colon_inside : (s t : Text) → HasNoColon (s ++ (b':' ∷ t)) → ⊥
colon_inside [] t h = h.0 refl
colon_inside (x ∷ xs) t h = colon_inside xs t h.1

split_at_last_colon :
    (s s' t t' : Text)
    → HasNoColon t
    → HasNoColon t'
    → s ++ (b':' ∷ t) ≡ s' ++ (b':' ∷ t')
    → (s ≡ s') × (t ≡ t')
split_at_last_colon [] [] t t' h h' e = (refl, cc)
split_at_last_colon [] (x ∷ xs) t t' h h' e =
    let rest : t ≡ xs ++ (b':' ∷ t') = cc in absurd (colon_inside xs t' (subst HasNoColon rest h))
split_at_last_colon (x ∷ xs) [] t t' h h' e =
    let rest : xs ++ (b':' ∷ t) ≡ t' = cc in
    absurd (colon_inside xs t (subst HasNoColon (sym rest) h'))
split_at_last_colon (x ∷ xs) (y ∷ ys) t t' h h' e =
    let rest : xs ++ (b':' ∷ t) ≡ ys ++ (b':' ∷ t') = cc in
    let parts = split_at_last_colon xs ys t t' h h' rest in (cc parts.0, parts.1)

same_namespace : (p : Text) {s t : Text} → p ++ s ≡ p ++ t → s ≡ t
same_namespace [] e = e
same_namespace (x ∷ xs) {s} {t} e = let rest : xs ++ s ≡ xs ++ t = cc in same_namespace xs rest

-- Lookups with the same key have the same kind, the same source fingerprint and the same id, where
-- ids hold no colon (validated ids are alphanumeric).
pub build_cache_key-injective :
    (kind kind' : LookupKind) (source source' id id' : Text)
    → HasNoColon id
    → HasNoColon id'
    → build_cache_key kind source id ≡ build_cache_key kind' source' id'
    → (kind ≡ kind') × (source ≡ source') × (id ≡ id')
unfolding build_cache_key
build_cache_key-injective LookupKind.track LookupKind.track s s' id id' h h' e =
    let parts = split_at_last_colon s s' id id' h h' (same_namespace (bytes "track:v2:") e) in
    (refl, parts.0, parts.1)
build_cache_key-injective LookupKind.track LookupKind.bag s s' id id' h h' e =
    absurd (ground (arith, e))
build_cache_key-injective LookupKind.track LookupKind.manifest s s' id id' h h' e =
    absurd (ground (arith, e))
build_cache_key-injective LookupKind.bag LookupKind.track s s' id id' h h' e =
    absurd (ground (arith, e))
build_cache_key-injective LookupKind.bag LookupKind.bag s s' id id' h h' e =
    let parts = split_at_last_colon s s' id id' h h' (same_namespace (bytes "bag:") e) in
    (refl, parts.0, parts.1)
build_cache_key-injective LookupKind.bag LookupKind.manifest s s' id id' h h' e =
    absurd (ground (arith, e))
build_cache_key-injective LookupKind.manifest LookupKind.track s s' id id' h h' e =
    absurd (ground (arith, e))
build_cache_key-injective LookupKind.manifest LookupKind.bag s s' id id' h h' e =
    absurd (ground (arith, e))
build_cache_key-injective LookupKind.manifest LookupKind.manifest s s' id id' h h' e =
    let parts = split_at_last_colon s s' id id' h h' (same_namespace (bytes "manifest:v2:") e) in
    (refl, parts.0, parts.1)
