-- ===== src/Recording.antt =====
-- The recording subsystem, src/lib/recording/: the MRR file format, its writer and its reader, the
-- recorder task and the playback task.
pub mod Format
pub mod Writer
pub mod Reader
pub mod File
pub mod Recorder
pub mod Player
pub mod EndToEnd
mod Tests
mod PlayTests
