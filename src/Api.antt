-- ===== src/Api.antt =====
-- apps/web/src/lib/api.ts
pub mod Errors
pub mod Transport
pub mod Request
pub mod Retry
pub mod Limits
pub mod Headers
mod Tests
