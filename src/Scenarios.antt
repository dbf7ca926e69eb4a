-- ===== src/Scenarios.antt =====
-- Runs of the parts on small inputs, and the theorems at inputs that meet their hypotheses.
mod Rbac
mod Reliability
mod Listing
mod Catalog
mod Subscriptions
mod Keys
mod Layering
mod Dispatch
mod Serving
pub mod Messages
mod HttpSessions
mod Streams
mod Limits
mod Waiting
mod Admission
