-- ===== src/Raymarine.antt =====
-- Raymarine radars (src/lib/brand/raymarine/report): spokes and frames of the RD and Quantum series.
pub mod Spoke
pub mod Rd
pub mod Quantum
mod Tests
