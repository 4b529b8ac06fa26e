-- ===== src/Client.antt =====
-- The web client, apps/client-mx/src/app.
pub mod Refresh
pub mod Cart
mod Tests
pub mod Products
pub mod Session
pub mod Toast
pub mod Modal
