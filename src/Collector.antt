-- ===== src/Collector.antt =====
-- app/utils/data_collector.py: a transaction hash and a mode as one Kafka message.
pub mod Codec
pub mod Context
use uzh_blockchain_data_coll.Base.{ℕ, List, [], ◌∷◌, ◌++◌}
use uzh_blockchain_data_coll.Base.Text.{Str, split}
use uzh_blockchain_data_coll.Errors.{Result, ok, err, value_error}
use uzh_blockchain_data_coll.Model.{Mode, mode_value, mode_of}

-- `KAFKA_EVENT_SEPARATOR`
abbrev pub separator : ℕ
separator = b':'

unfoldable pub encode_kafka_event : Str → Mode → Str
unfolding mode_value
encode_kafka_event tx_hash mode = mode_value mode ++ (separator ∷ tx_hash)

-- The tuple assignment takes exactly two pieces, and any other number raises a `ValueError`.
unpack_event : List Str → Result (Mode × Str)
unfolding mode_of
unpack_event (mode_str ∷ tx_hash ∷ []) = elim (mode_of mode_str) [
  | ok mode ↦ ok (mode, tx_hash)
  | err e ↦ err e
]
unpack_event _ = err value_error

unfoldable pub decode_kafka_event : Str → Result (Mode × Str)
unfolding unpack_event split
decode_kafka_event event = unpack_event (split separator event)
