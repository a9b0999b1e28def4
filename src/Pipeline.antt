-- ===== src/Pipeline.antt =====
-- A producer and a consumer end to end.
pub mod Consumed
pub mod Received
pub mod EndToEnd
pub mod Retries
pub mod Internal
pub mod Logs
