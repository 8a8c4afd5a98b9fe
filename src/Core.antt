-- ===== src/Core.antt =====
-- crates/shipflow-core/src: the types that the Rust crates share, and the client of the upstream
-- service.
pub mod Model
pub mod Upstream
