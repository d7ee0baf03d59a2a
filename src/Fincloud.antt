-- ===== src/Fincloud.antt =====
-- internal/fincloud: sessions with the Fincloud service.
pub mod Auth
pub mod Lane
pub mod Coordinator
