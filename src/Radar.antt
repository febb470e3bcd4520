-- ===== src/Radar.antt =====
-- The parts that all radars share (src/lib/radar).
pub mod Range
pub mod Exclusion
pub mod Spokes
pub mod Legend
mod Tests
mod SpokeTests
