-- ===== src/Cache.antt =====
-- backend/services/cache.py: `Semantic` is the cache of two levels in memory, `Laws` and `Lookups` are
-- lemmas on it, `Breaker` is the circuit breaker around Redis.
pub mod Semantic
pub mod Laws
pub mod Lookups
pub mod Breaker
mod Tests
