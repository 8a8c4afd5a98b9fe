-- ===== src/LookupCache.antt =====
-- crates/shipflow-service-runtime/src/lookup_cache.rs: the in-memory lookup cache and the fetches
-- in flight. Instants and durations are milliseconds; each clock reading is an argument.
pub mod Entry
pub mod Metrics
pub mod Prune
pub mod Actions
mod Tests
