-- ===== src/Interceptors.antt =====
-- plugins/interceptors
pub mod Analytics
