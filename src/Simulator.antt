-- ===== src/Simulator.antt =====
-- crates/maybenot-simulator: the simulator's events and their queues.
pub mod Event
pub mod Queue
pub mod Sides
pub mod Peek
pub mod Integration
pub mod Network
pub mod Sim
pub mod Stack
pub mod Next
pub mod Slots
pub mod Pick
pub mod Update
pub mod Run
pub mod Trace
