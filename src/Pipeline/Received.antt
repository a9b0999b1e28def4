-- ===== src/Pipeline/Received.antt =====
-- The messages of a producer as a consumer gets them: each once, in any order.
use mathlib.Core.List.{Perm}
use mathlib.Core.List.Perm
use uzh_blockchain_data_coll.Base.{
  ℕ, true, false, List, [], ◌∷◌, ◌++◌, ◌==◌, map, map-append, contains, list_eq, nat_eq, ◌≡◌, refl,
  sym, ap, ap₂, ◌∙◌, arith, eq_self, Bool-cases, inl, inr,
}
use uzh_blockchain_data_coll.Base.Text.{Str}
use uzh_blockchain_data_coll.Base.Perms.{contains-perm}
use uzh_blockchain_data_coll.Errors.{ok, err}
use uzh_blockchain_data_coll.Model.{Mode}
use uzh_blockchain_data_coll.Model.Rows.{BlockData}
use uzh_blockchain_data_coll.Collector.{encode_kafka_event, decode_kafka_event, separator}
use uzh_blockchain_data_coll.Collector.Codec.{decode-encode}
use uzh_blockchain_data_coll.Producer.{encode_all}
use uzh_blockchain_data_coll.Producer.Blocks.{block_messages}
use uzh_blockchain_data_coll.Producer.Messages.{block_hashes}

-- The hash in a message.
abbrev pub hash_of : Str → Str
hash_of v = elim (decode_kafka_event v) [ ok (mode, h) ↦ h | err x ↦ [] ]

-- No element of the list contains the separator.
abbrev pub ArePlain : List Str → Type 0
ArePlain hs = (h : Str) → contains hs h ≡ true → contains h separator ≡ false

pub block_messages-encode_all :
    (mode : Mode) (bs : List (BlockData × ℕ))
    → block_messages mode bs ≡ encode_all mode (block_hashes bs)
block_messages-encode_all mode [] = refl
block_messages-encode_all mode ((d, r) ∷ bs) =
    ap (λ ms. encode_all mode d.transactions ++ ms) (block_messages-encode_all mode bs)
    ∙ sym (map-append _ _ _)

module _ (mode : Mode) where
  hash_of-encode :
      (h : Str) → contains h separator ≡ false → hash_of (encode_kafka_event h mode) ≡ h
  hash_of-encode h plain = ground (arith, decode-encode h mode plain)

  ArePlain-tail : (h : Str) (hs : List Str) → ArePlain (h ∷ hs) → ArePlain hs
  ArePlain-tail h hs plain k there = plain k (ground arith)

  ArePlain-head : (h : Str) (hs : List Str) → ArePlain (h ∷ hs) → contains h separator ≡ false
  ArePlain-head h hs plain = plain h (ground (arith, eq_self h))

  hashes-encode_all : (hs : List Str) → ArePlain hs → map hash_of (encode_all mode hs) ≡ hs
  hashes-encode_all [] plain = refl
  hashes-encode_all (h ∷ hs) plain =
      ap₂ (λ x xs. x ∷ xs) (hash_of-encode h (ArePlain-head h hs plain))
        (hashes-encode_all hs (ArePlain-tail h hs plain))

  -- A message in the topic is the encoding of its hash.
  encode-hash_of :
      (hs : List Str) (v : Str)
      → ArePlain hs
      → contains (encode_all mode hs) v ≡ true
      → encode_kafka_event (hash_of v) mode ≡ v
  encode-hash_of [] v plain there = absurd (ground arith)
  encode-hash_of (h ∷ hs) v plain there =
      let m = encode_kafka_event h mode in
      elim (Bool-cases (v == m)) [
        | inl same ↦
            let e : v ≡ m = ground arith in
            ap (λ t. encode_kafka_event (hash_of t) mode) e
            ∙ ap (λ t. encode_kafka_event t mode) (hash_of-encode h (ArePlain-head h hs plain))
            ∙ sym e
        | inr different ↦ encode-hash_of hs v (ArePlain-tail h hs plain) (ground arith)
      ]

  encode_all-hashes :
      (hs vs : List Str)
      → ArePlain hs
      → ((v : Str) → contains vs v ≡ true → contains (encode_all mode hs) v ≡ true)
      → encode_all mode (map hash_of vs) ≡ vs
  encode_all-hashes hs [] plain sent = refl
  encode_all-hashes hs (v ∷ vs) plain sent =
      ap₂ (λ x xs. x ∷ xs) (encode-hash_of hs v plain (sent v (ground (arith, eq_self v))))
        (encode_all-hashes hs vs plain (λ w there. sent w (ground arith)))

  -- What is received, in whatever order, is the encoding of the hashes that were sent, in the same
  -- order.
  pub received_lem :
      (hs vs : List Str)
      → ArePlain hs
      → Perm vs (encode_all mode hs)
      → (vs ≡ encode_all mode (map hash_of vs)) × Perm (map hash_of vs) hs
  received_lem hs vs plain p = (
    sym (
        encode_all-hashes hs vs plain
          (λ v there. sym (contains-perm v vs (encode_all mode hs) p) ∙ there)),
    rw (sym (hashes-encode_all hs plain)) (Perm.map hash_of p),
  )
