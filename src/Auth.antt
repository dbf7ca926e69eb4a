-- ===== src/Auth.antt =====
-- pkg/auth: what the parts of the package share.
pub mod Rbac
pub mod ApiKey
pub mod RateLimit
pub mod Middleware
