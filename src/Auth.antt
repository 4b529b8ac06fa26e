-- ===== src/Auth.antt =====
-- The auth service, apps/auth-service/src/app.
pub mod Rows
pub mod Action
pub mod Backend
pub mod TokenConfig
pub mod Permission
pub mod Tokens
pub mod Sessions
pub mod Users
pub mod Cleanup
pub mod Device
pub mod Controller
pub mod Ownership
pub mod EmailVerification
mod Tests
