-- ===== src/Http.antt =====
-- internal/httpapi: the middlewares and helpers that every route shares.
pub mod Permissions
pub mod Authentication
pub mod RateLimit
pub mod Pagination
pub mod Audit
mod Tests
