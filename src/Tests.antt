-- ===== src/Tests.antt =====
-- Sample data, runs of the code on it, and the theorems at concrete inputs.
pub mod Memory
pub mod Layers
pub mod Cleaning
pub mod Building
pub mod Rekeying
pub mod Paths
pub mod Files
pub mod Backends
pub mod Trees
pub mod Wanted
pub mod Rollback
pub mod Reads
pub mod RoundTrip
pub mod Bucket
pub mod Scheduling
