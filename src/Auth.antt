-- ===== src/Auth.antt =====
-- agent/internal/auth: the login of the dashboard.
pub mod Limiter
pub mod Crypto
pub mod Totp
pub mod Password
pub mod Authenticator
pub mod Toy
mod Tests
