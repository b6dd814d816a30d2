-- ===== src/Bract.antt =====
-- The server bract, which sets up the seedlings on the host, starts and stops them, and watches them.
pub mod Rolodex
pub mod Containers
pub mod StopSeedling
pub mod StartSeedling
pub mod Watchdog
