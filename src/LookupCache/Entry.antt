-- ===== src/LookupCache/Entry.antt =====
-- lookup_cache.rs: the cache policy, cached entries and their errors, slots and cache keys.
pub mod Keys
use ship_flow_tauri.Prelude.{ℕ, ◌+◌, ◌*◌, Text, bytes, ◌++◌, Bool, leb, length}
use ship_flow_tauri.Core.Model.{LookupKind, TrackingError}

abbrev pub max_in_memory_lookup_cache_entries : ℕ
max_in_memory_lookup_cache_entries = 10000

abbrev pub max_in_memory_lookup_cache_entry_bytes : ℕ
max_in_memory_lookup_cache_entry_bytes = 1024 * 1024

abbrev pub max_in_memory_lookup_cache_bytes : ℕ
max_in_memory_lookup_cache_bytes = 128 * 1024 * 1024

pub record LookupCachePolicy : Type 0 where
  pub track_ttl : ℕ
  pub bag_ttl : ℕ
  pub manifest_ttl : ℕ
  pub error_ttl : ℕ

abbrev pub default_policy : LookupCachePolicy
default_policy = record {
  track_ttl = 30 * 1000;
  bag_ttl = 60 * 1000;
  manifest_ttl = 90 * 1000;
  error_ttl = 8 * 1000;
}

unfoldable pub ttl_for : LookupCachePolicy → LookupKind → ℕ
ttl_for policy LookupKind.track = policy.track_ttl
ttl_for policy LookupKind.bag = policy.bag_ttl
ttl_for policy LookupKind.manifest = policy.manifest_ttl

pub data CachedLookupErrorKind : Type 0 where
  bad_request not_found rate_limited service_unavailable upstream : CachedLookupErrorKind

pub record CachedLookupError : Type 0 where
  pub kind : CachedLookupErrorKind
  pub message : Text

pub data CachedLookupValue : Type 0 where
  success : Text → CachedLookupValue
  error : CachedLookupError → CachedLookupValue

pub record CachedLookupEntry : Type 0 where
  pub expires_at : ℕ
  pub last_accessed_at : ℕ
  pub value : CachedLookupValue

-- A `Notify` is known by its address, which `Arc::ptr_eq` compares.
pub data LookupCacheSlot : Type 0 where
  ready : CachedLookupEntry → LookupCacheSlot
  loading : ℕ → LookupCacheSlot

unfoldable pub from_tracking_error : TrackingError → CachedLookupError
from_tracking_error (TrackingError.bad_request m) = record {
  kind = CachedLookupErrorKind.bad_request;
  message = m;
}
from_tracking_error (TrackingError.not_found m) = record {
  kind = CachedLookupErrorKind.not_found;
  message = m;
}
from_tracking_error (TrackingError.rate_limited m) = record {
  kind = CachedLookupErrorKind.rate_limited;
  message = m;
}
from_tracking_error (TrackingError.service_unavailable m) = record {
  kind = CachedLookupErrorKind.service_unavailable;
  message = m;
}
from_tracking_error (TrackingError.upstream m) = record {
  kind = CachedLookupErrorKind.upstream;
  message = m;
}

error_of_kind : CachedLookupErrorKind → Text → TrackingError
error_of_kind CachedLookupErrorKind.bad_request m = TrackingError.bad_request m
error_of_kind CachedLookupErrorKind.not_found m = TrackingError.not_found m
error_of_kind CachedLookupErrorKind.rate_limited m = TrackingError.rate_limited m
error_of_kind CachedLookupErrorKind.service_unavailable m = TrackingError.service_unavailable m
error_of_kind CachedLookupErrorKind.upstream m = TrackingError.upstream m

unfoldable pub to_tracking_error : CachedLookupError → TrackingError
unfolding error_of_kind
to_tracking_error e = error_of_kind e.kind e.message

unfoldable pub success_entry : LookupCachePolicy → LookupKind → Text → ℕ → CachedLookupEntry
success_entry policy kind payload now = record {
  expires_at = now + ttl_for policy kind;
  last_accessed_at = now;
  value = CachedLookupValue.success payload;
}

unfoldable pub error_entry : LookupCachePolicy → TrackingError → ℕ → CachedLookupEntry
error_entry policy e now = record {
  expires_at = now + policy.error_ttl;
  last_accessed_at = now;
  value = CachedLookupValue.error (from_tracking_error e);
}

-- now >= expires_at
unfoldable pub is_expired : CachedLookupEntry → ℕ → Bool
is_expired entry now = leb entry.expires_at now

value_bytes : CachedLookupValue → ℕ
value_bytes (CachedLookupValue.success payload) = length payload
value_bytes (CachedLookupValue.error e) = length e.message

unfoldable pub estimated_bytes : CachedLookupEntry → ℕ
unfolding value_bytes
estimated_bytes entry = value_bytes entry.value

key_namespace : LookupKind → Text
key_namespace LookupKind.track = bytes "track:v2"
key_namespace LookupKind.manifest = bytes "manifest:v2"
key_namespace LookupKind.bag = bytes "bag"

-- format!("{}:{}:{}", namespace, source_fingerprint, normalized_id)
unfoldable pub build_cache_key : LookupKind → Text → Text → Text
unfolding key_namespace
build_cache_key kind source_fingerprint normalized_id =
    key_namespace kind ++ (bytes ":" ++ (source_fingerprint ++ (bytes ":" ++ normalized_id)))
