-- ===== src/Database.antt =====
-- internal/database: transactions on the database.
pub mod Retry
