-- ===== src/Quota.antt =====
-- apps/api/billcommons_api/quota.py: the quotas of anonymous callers and of API keys.
pub mod Plans
pub mod Anonymous
pub mod Keyed
mod Examples
