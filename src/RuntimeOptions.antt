-- ===== src/RuntimeOptions.antt =====
-- crates/shipflow-service-runtime/src/runtime_options.rs: the tunable options and their validation.
use ship_flow_tauri.Prelude.{
  ℕ, suc, min, is_some, ◌≡◌, refl, Text, bytes, List, [], ◌∷◌, Option, none, some, Bool, true,
  false, not, ltb, leb, ◌&&◌, ◌||◌, ◌==◌, nat_eq, if◌then◌else◌, length, arith,
}

pub record RuntimeOptions : Type 0 where
  pub require_persistence : Bool
  pub data_directory : Option Text
  pub config_id : Text
  pub http_concurrency : ℕ
  pub http_queue : ℕ
  pub lookup_concurrency : ℕ
  pub public_concurrency : ℕ
  pub lookup_queue : ℕ
  pub contact_concurrency : ℕ
  pub track_ttl_seconds : ℕ
  pub bag_ttl_seconds : ℕ
  pub manifest_ttl_seconds : ℕ
  pub cache_entries : ℕ
  pub cache_mib : ℕ
  pub persistent_entries : ℕ

abbrev pub default_options : RuntimeOptions
default_options = record {
  require_persistence = false;
  data_directory = none;
  config_id = [];
  http_concurrency = 128;
  http_queue = 512;
  lookup_concurrency = 30;
  public_concurrency = 24;
  lookup_queue = 240;
  contact_concurrency = 15;
  track_ttl_seconds = 30;
  bag_ttl_seconds = 60;
  manifest_ttl_seconds = 90;
  cache_entries = 10000;
  cache_mib = 128;
  persistent_entries = 2000;
}

-- The errors, in place of their messages: the field out of range, and the other checks in order.
pub data OptionsError : Type 0 where
  out_of_range : Text → ℕ → OptionsError
  public_concurrency_too_large cache_ttl_out_of_range data_directory_required : OptionsError
  invalid_config_id : OptionsError

-- `none` is `Ok(())`.
check_limits : List (Text × ℕ × ℕ) → Option OptionsError
check_limits [] = none
check_limits ((name, value, limit) ∷ rest) =
    let checked = check_limits rest in
    if value == 0 || ltb limit value then some (OptionsError.out_of_range name limit) else checked

check_ttls : List ℕ → Option OptionsError
check_ttls [] = none
check_ttls (ttl ∷ rest) =
    let checked = check_ttls rest in
    if not (leb 1 ttl && leb ttl 86400) then some OptionsError.cache_ttl_out_of_range else checked

infixl 20 ◌or_else◌
abbrev ◌or_else◌ : Option OptionsError → Option OptionsError → Option OptionsError
none or_else next = next
some e or_else next = some e

abbrev check : Bool → OptionsError → Option OptionsError
check failed e = if failed then some e else none

-- `Path::is_absolute` is the platform's.
lacks_directory : (Text → Bool) → Option Text → Bool
lacks_directory is_absolute none = true
lacks_directory is_absolute (some path) = not (is_absolute path)

unfoldable pub validate : (Text → Bool) → RuntimeOptions → Option OptionsError
unfolding check_limits check_ttls lacks_directory
validate is_absolute o =
    check_limits (
      (bytes "httpConcurrency", o.http_concurrency, 512)
      ∷ (bytes "httpQueue", o.http_queue, 4096)
      ∷ (bytes "lookupConcurrency", o.lookup_concurrency, 100)
      ∷ (bytes "publicConcurrency", o.public_concurrency, 100)
      ∷ (bytes "lookupQueue", o.lookup_queue, 2000)
      ∷ (bytes "contactConcurrency", o.contact_concurrency, 50)
      ∷ (bytes "cacheEntries", o.cache_entries, 100000)
      ∷ (bytes "cacheMiB", o.cache_mib, 1024)
      ∷ (bytes "persistentEntries", o.persistent_entries, 100000)
      ∷ [])
    or_else check
        (ltb o.lookup_concurrency o.public_concurrency
          || ltb o.http_concurrency o.public_concurrency)
        OptionsError.public_concurrency_too_large
    or_else check_ttls (o.track_ttl_seconds ∷ o.bag_ttl_seconds ∷ o.manifest_ttl_seconds ∷ [])
    or_else check (o.require_persistence && lacks_directory is_absolute o.data_directory)
        OptionsError.data_directory_required
    or_else check (ltb 128 (length o.config_id)) OptionsError.invalid_config_id

-- From 1 to the most.
abbrev is_within : ℕ → ℕ → Bool
is_within most value = ltb 0 value && ltb value (suc most)

abbrev has_public_room : RuntimeOptions → Bool
has_public_room o = ltb o.public_concurrency (suc (min o.lookup_concurrency o.http_concurrency))

abbrev is_directory : (Text → Bool) → Option Text → Bool
is_directory is_absolute (some path) = is_absolute path
is_directory is_absolute none = false

abbrev has_limits : RuntimeOptions → Bool
has_limits o =
    is_within 512 o.http_concurrency
    && (is_within 4096 o.http_queue
        && (is_within 100 o.lookup_concurrency
            && (is_within 100 o.public_concurrency
                && (is_within 2000 o.lookup_queue
                    && (is_within 50 o.contact_concurrency
                        && (is_within 100000 o.cache_entries
                            && (is_within 1024 o.cache_mib
                                && is_within 100000 o.persistent_entries)))))))

abbrev has_ttls : RuntimeOptions → Bool
has_ttls o =
    is_within 86400 o.track_ttl_seconds
    && (is_within 86400 o.bag_ttl_seconds && is_within 86400 o.manifest_ttl_seconds)

-- The options that may be used: what each limiter and each cache that they set up needs.
abbrev pub is_usable : (Text → Bool) → RuntimeOptions → Bool
is_usable is_absolute o =
    (((has_limits o && has_public_room o) && has_ttls o)
      && (not o.require_persistence || is_directory is_absolute o.data_directory))
    && ltb (length o.config_id) 129

validate_default : (is_absolute : Text → Bool) → validate is_absolute default_options ≡ none
unfolding validate
validate_default is_absolute = refl

-- A check fails exactly where the options do not hold.
record Rejects (checked : Option OptionsError) (holds : Bool) : Type 0 where
  pub exactly : is_some checked ≡ not holds

or_else_not :
    {a b : Option OptionsError} {x y : Bool}
    → Rejects a x
    → Rejects b y
    → Rejects (a or_else b) (x && y)
or_else_not {a} {b} {x} {y} h k = record { exactly = ground (arith, h.exactly, k.exactly) }

record LimitsReject (limits : List (Text × ℕ × ℕ)) (holds : Bool) : Type 0 where
  pub limits_checked : Rejects (check_limits limits) holds

record TtlsReject (ttls : List ℕ) (holds : Bool) : Type 0 where
  pub ttls_checked : Rejects (check_ttls ttls) holds

limit_not :
    {rest : List (Text × ℕ × ℕ)} {x : Bool} (name : Text) (value limit : ℕ)
    → LimitsReject rest x
    → LimitsReject ((name, value, limit) ∷ rest) (is_within limit value && x)
unfolding check_limits
limit_not name value limit h = record {
  limits_checked = record { exactly = ground (arith, h.limits_checked.exactly) };
}

last_limit_not :
    (name : Text) (value limit : ℕ)
    → LimitsReject ((name, value, limit) ∷ []) (is_within limit value)
unfolding check_limits
last_limit_not name value limit = record { limits_checked = record { exactly = ground arith } }

ttl_not :
    {rest : List ℕ} {x : Bool} (ttl : ℕ)
    → TtlsReject rest x
    → TtlsReject (ttl ∷ rest) (is_within 86400 ttl && x)
unfolding check_ttls
ttl_not ttl h = record {
  ttls_checked = record { exactly = ground (arith, h.ttls_checked.exactly) };
}

last_ttl_not : (ttl : ℕ) → TtlsReject (ttl ∷ []) (is_within 86400 ttl)
unfolding check_ttls
last_ttl_not ttl = record { ttls_checked = record { exactly = ground arith } }

public_not :
    (o : RuntimeOptions) (e : OptionsError)
    → Rejects
        (check
          (ltb o.lookup_concurrency o.public_concurrency
            || ltb o.http_concurrency o.public_concurrency)
          e)
        (has_public_room o)
public_not o e = record { exactly = ground arith }

directory_not :
    (is_absolute : Text → Bool) (required : Bool) (directory : Option Text) (e : OptionsError)
    → Rejects
        (check (required && lacks_directory is_absolute directory) e)
        (not required || is_directory is_absolute directory)
unfolding lacks_directory
directory_not is_absolute required none e = record { exactly = ground arith }
directory_not is_absolute required (some path) e = record { exactly = ground arith }

id_not : (size : ℕ) (e : OptionsError) → Rejects (check (ltb 128 size) e) (ltb size 129)
id_not size e = record { exactly = ground arith }

-- The options are accepted where they may be used, and only there: each limit is at least 1 and at
-- most its maximum, public concurrency fits HTTP and upstream concurrency, each time to live is
-- between a second and a day, a service that requires persistence has an absolute directory, and the
-- configuration's id has at most 128 bytes.
pub validate-is_usable :
    (is_absolute : Text → Bool) (o : RuntimeOptions)
    → is_some (validate is_absolute o) ≡ not (is_usable is_absolute o)
unfolding validate
validate-is_usable is_absolute o =
    let limits = limit_not (bytes "httpConcurrency") o.http_concurrency 512 (
      limit_not (bytes "httpQueue") o.http_queue 4096 (
        limit_not (bytes "lookupConcurrency") o.lookup_concurrency 100 (
          limit_not (bytes "publicConcurrency") o.public_concurrency 100 (
            limit_not (bytes "lookupQueue") o.lookup_queue 2000 (
              limit_not (bytes "contactConcurrency") o.contact_concurrency 50 (
                limit_not (bytes "cacheEntries") o.cache_entries 100000 (
                  limit_not (bytes "cacheMiB") o.cache_mib 1024 (
                    last_limit_not (bytes "persistentEntries") o.persistent_entries
                      100000)))))))) in
    let ttls =
      ttl_not o.track_ttl_seconds
        (ttl_not o.bag_ttl_seconds (last_ttl_not o.manifest_ttl_seconds)) in
    let room = public_not o OptionsError.public_concurrency_too_large in
    let directory =
      directory_not is_absolute o.require_persistence o.data_directory
        OptionsError.data_directory_required in
    let named = id_not (length o.config_id) OptionsError.invalid_config_id in
    (or_else_not
      (or_else_not (or_else_not (or_else_not limits.limits_checked room) ttls.ttls_checked)
        directory)
      named).exactly
