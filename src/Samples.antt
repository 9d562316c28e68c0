-- ===== src/Samples.antt =====
-- Concrete runs: a cluster, an export and its images, and the theorems at them.
pub mod Failures
pub mod Fleet
pub mod Settling
pub mod Starts
pub mod Threads
pub mod Worlds
pub mod Images
pub mod Exports
pub mod Listing
pub mod Names
