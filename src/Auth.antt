-- ===== src/Auth.antt =====
-- The auth service (services/auth-service/src): signup, login, the renewal of access tokens, logout
-- and the profile.
pub mod Tokens
pub mod Service
pub mod Sessions
pub mod Logout
pub mod Entry
pub mod Login
mod Fixtures
mod Tests
