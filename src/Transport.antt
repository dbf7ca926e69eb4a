-- ===== src/Transport.antt =====
-- pkg/transport: the middleware that a transport is wrapped in, and the transport's own tables.
pub mod Breaker
pub mod Retry
pub mod Layers
pub mod Dispatch
pub mod Stream
pub mod Pending
