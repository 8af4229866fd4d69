-- ===== src/Handlers.antt =====
-- pkg/handlers
pub mod Body
pub mod Activate
pub mod Decide
pub mod Notification
pub mod OAuth
pub mod Override
pub mod Profiles
pub mod Rest
pub mod Webhook
