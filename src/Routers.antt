-- ===== src/Routers.antt =====
-- pkg/routers
pub mod Admin
pub mod Api
mod Samples
