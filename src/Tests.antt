-- ===== src/Tests.antt =====
-- A small node, a small topic and the theorems of the library on them.
pub mod Setting
mod Transport
mod Blocks
mod Transactions
mod Modes
mod Deliveries
mod EndToEnd
mod Scripts
mod Rounds
mod Interleaving
mod Command
mod Requests
mod Timeouts
