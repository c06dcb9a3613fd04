-- ===== src/RateLimit.antt =====
-- backend/app/core/rate_limit
pub mod Redis
pub mod Grouped
