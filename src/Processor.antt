-- ===== src/Processor.antt =====
-- app/consumer/tx_processor.py: what a consumer writes for one transaction.
pub mod State
pub mod Handlers
pub mod Modes
pub mod Tally
pub mod Supply
pub mod Conservation
pub mod Creation
pub mod Full
pub mod Replay
pub mod Partial
pub mod Interaction
pub mod Others
