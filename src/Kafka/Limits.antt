-- ===== src/Kafka/Limits.antt =====
-- The constants of app/kafka/manager.py.
use uzh_blockchain_data_coll.Base.{ℕ}

-- `KafkaProducerManager`
abbrev pub max_messages_per_partition : ℕ
max_messages_per_partition = 1000

abbrev pub messages_per_batch : ℕ
messages_per_batch = 1024

-- `KafkaManager`
abbrev pub initial_connection_max_attempts : ℕ
initial_connection_max_attempts = 10
