-- ===== src/Mfa.antt =====
-- internal/mfa: browser logins with a second factor.
pub mod Totp
pub mod Model
pub mod Challenges
pub mod Inspection
pub mod Actor
pub mod Verify
pub mod Reset
pub mod Kept
pub mod Lifecycle
pub mod Replay
mod Tests
