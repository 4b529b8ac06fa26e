-- ===== src/Gateway.antt =====
-- The gateway, apps/server-nest/src/app.
pub mod Http
pub mod Calls
pub mod Relay
pub mod Refusals
pub mod Verify
pub mod Guards
pub mod Cookies
pub mod Controller
pub mod Products
pub mod Journey
mod Tests
