-- ===== src/RateLimit.antt =====
-- apps/api/billcommons_api/rate_limit.py: the request limiter of the public API.
pub mod Counter
pub mod Routes
pub mod Middleware
mod Examples
