-- ===== src/Tests.antt =====
-- The theorems at concrete inputs, and runs of the models on a simulated system.
pub mod Sim
pub mod Builds
pub mod Machines
pub mod Serving
pub mod Queueing
pub mod Checksums
pub mod Clients
pub mod Threads
pub mod Pools
pub mod Programs
pub mod Session
pub mod Network
pub mod NetworkLaws
pub mod Runs
