-- ===== src/Browserauth.antt =====
-- internal/browserauth: who may log in.
pub mod Failures
