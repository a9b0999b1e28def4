-- ===== src/Flow.antt =====
-- The whole system at work: the producer tasks and the consumer tasks over one topic and one Redis
-- count, interleaved at every `await` (producer.py, app/kafka/manager.py, main.py).
pub mod Family
pub mod Tasks
pub mod System
pub mod Count
pub mod Allowed
pub mod Bounds
