-- ===== src/UserProfileService.antt =====
-- plugins/userprofileservice
pub mod InMemory
pub mod Interface
pub mod Profile
pub mod Redis
pub mod Rest
