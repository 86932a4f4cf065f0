-- ===== src/CommandWorker.antt =====
-- src/axon_utils/command_worker.rs, in child modules.
pub mod Protocol
pub mod Emit
pub mod Store
pub mod Aggregate
pub mod Registry
pub mod Worker
pub mod Output
mod Tests
