-- ===== src/Woodward.antt =====
-- woodward/src/lib.rs: the supervisor of the core services.
pub mod Tally
pub mod Check
pub mod Bounds
pub mod Restraint
pub mod Detection
pub mod Budget
pub mod Marker
