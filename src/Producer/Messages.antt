-- ===== src/Producer/Messages.antt =====
-- What a consumer reads from the messages of a producer.
use uzh_blockchain_data_coll.Base.{
  ℕ, false, List, [], ◌∷◌, ◌++◌, map, map-append, All, contains, nat_eq, ◌≡◌, refl, ap₂, sym, ◌∙◌,
}
use uzh_blockchain_data_coll.Base.Text.{Str}
use uzh_blockchain_data_coll.Errors.{ok}
use uzh_blockchain_data_coll.Model.{Mode}
use uzh_blockchain_data_coll.Model.Rows.{BlockData}
use uzh_blockchain_data_coll.Collector.{decode_kafka_event, separator}
use uzh_blockchain_data_coll.Collector.Codec.{decode-encode}
use uzh_blockchain_data_coll.Producer.{encode_all}
use uzh_blockchain_data_coll.Producer.Blocks.{block_messages}

-- The hashes of the transactions of blocks, in order.
abbrev pub block_hashes : List (BlockData × ℕ) → List Str
block_hashes [] = []
block_hashes ((d, r) ∷ bs) = d.transactions ++ block_hashes bs

-- No hash contains the separator.
abbrev pub IsPlainBlock : BlockData × ℕ → Type 0
IsPlainBlock (d, r) = All (λ h. contains h separator ≡ false) d.transactions

decode-encode_all :
    (mode : Mode) (hs : List Str)
    → All (λ h. contains h separator ≡ false) hs
    → map decode_kafka_event (encode_all mode hs) ≡ map (λ h. ok (mode, h)) hs
decode-encode_all mode [] plain = refl
decode-encode_all mode (h ∷ hs) (p, plain) =
    ap₂ (λ x xs. x ∷ xs) (decode-encode h mode p) (decode-encode_all mode hs plain)

-- The messages that a producer sends for blocks whose hashes have no separator are read by a
-- consumer as exactly the transactions of the blocks, in order, with the producer's mode.
pub decode-block_messages :
    (mode : Mode) (bs : List (BlockData × ℕ))
    → All IsPlainBlock bs
    → map decode_kafka_event (block_messages mode bs) ≡ map (λ h. ok (mode, h)) (block_hashes bs)
decode-block_messages mode [] plain = refl
decode-block_messages mode ((d, r) ∷ bs) (p, plain) =
    map-append _ _ _
    ∙ ap₂ (λ x y. x ++ y) (decode-encode_all mode d.transactions p)
        (decode-block_messages mode bs plain)
    ∙ sym (map-append _ _ _)
