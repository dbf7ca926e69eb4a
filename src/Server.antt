-- ===== src/Server.antt =====
-- pkg/server: what the server offers its clients.
pub mod Cursor
pub mod Listing
pub mod Labelled
pub mod Resources
pub mod Subscriptions
pub mod Endpoint
pub mod Http
