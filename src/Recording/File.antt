-- ===== src/Recording/File.antt =====
-- Whole MRR files: what a writer leaves behind, as a reader finds it.
pub mod Written
pub mod Reads
pub mod Open
pub mod Total
pub mod Skip
pub mod Seek
