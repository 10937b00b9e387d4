-- ===== src/Auth.antt =====
-- internal/auth, internal/schedule/repository_refresh_tokens.go and internal/httpapi/handlers_auth.go:
-- refresh tokens, their rotation and revocation.
pub mod Tokens
pub mod Handlers
pub mod Rotation
pub mod Reuse
mod Tests
