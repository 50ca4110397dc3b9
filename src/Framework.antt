-- ===== src/Framework.antt =====
-- crates/maybenot/src/framework.rs, in the order in which the parts use one another.
pub mod Types
pub mod Limits
pub mod Transition
pub mod Events
pub mod Create
pub mod Ledger
pub mod Rows
pub mod Local
pub mod Updates
pub mod Steps
pub mod Moves
pub mod Kept
pub mod Loops
pub mod Bodies
pub mod Actions
pub mod Trigger
pub mod Depth
pub mod Refusal
pub mod Counters
pub mod Safety
pub mod Signals
pub mod Start
pub mod Bookkeeping
