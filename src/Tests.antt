-- ===== src/Tests.antt =====
-- The theorems at inputs that meet their conditions, and runs of the model.
pub mod Fixture
pub mod Parts
pub mod Runs
pub mod Histories
pub mod Heaps
pub mod Delays
pub mod Simulations
pub mod Behaviour
pub mod Traces
pub mod Decoded
