-- ===== src/Middleware.antt =====
-- pkg/middleware
pub mod AllowedHosts
pub mod Auth
pub mod Batch
pub mod Cached
