-- ===== src/Cache.antt =====
-- The physical cache: core/models/cache.py, infrastructure/repositories/cache.py, the eviction and
-- pinning of services/cache.py, and the reservations of infrastructure/cache_coordination.py.
pub mod Model
pub mod Repository
pub mod Service
pub mod Coordination
mod Tests
