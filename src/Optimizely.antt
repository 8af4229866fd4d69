-- ===== src/Optimizely.antt =====
-- pkg/optimizely
pub mod Cache
pub mod Client
pub mod TestConfig
