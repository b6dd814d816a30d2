-- ===== src/Upgrade.antt =====
-- src/bootstrap/upgrade.rs: the upgrade of douglas to another version, and the way back.
pub mod Plan
pub mod Steps
pub mod Planned
pub mod Installed
pub mod Restored
pub mod Health
pub mod Rollback
pub mod Executed
