-- ===== src/Web.antt =====
-- The parts of the web client that decide by themselves, under apps/web/src.
pub mod Chats
pub mod Notifications
pub mod TabSession
mod Tests
