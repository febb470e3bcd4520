-- ===== src/Furuno.antt =====
-- The Furuno receiver, src/lib/brand/furuno/: echo frames and their sweep encodings, the
-- stretching of spokes, and the wire range tables.
pub mod Protocol
pub mod Sweep
pub mod Stretch
pub mod Wire
pub mod Frame
mod Tests
