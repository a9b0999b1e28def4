-- ===== src/Kafka.antt =====
-- app/kafka/manager.py: the producer's side of the topic.
pub mod Limits
pub mod Connect
pub mod Capacity
pub mod Chunks
pub mod Partition
pub mod Topic
use uzh_blockchain_data_coll.Base.{
  ℕ, zero, suc, ◌+◌, Option, none, some, Bool, true, false, List, [], ◌∷◌, ◌++◌, ◌==◌, nat_eq,
  length, if◌then◌else◌,
}
use uzh_blockchain_data_coll.Base.Int.{pos}
use uzh_blockchain_data_coll.Base.Text.{Str}
use uzh_blockchain_data_coll.Errors.{
  Exc, M, Result, ok, err, ◌>>=◌, ◌>>◌, pure, lift, gets, modify, kafka_timeout, kafka_error,
}
use uzh_blockchain_data_coll.Redis.{SortedSet, get_lowest_score_partition, incrby_n_transactions}
use Chunks.{chunks_of}
use Limits.{messages_per_batch}

-- aiokafka and the broker. `number_of_partitions` may change from call to call, so it is asked for
-- with the number of batches sent before.
pub record Broker : Type 0 where
  -- `kafka_batch.append` on a batch that holds the given messages: whether it returns metadata
  pub accepts : List Str → Str → Bool
  -- `await client.send_batch(…)`, then the future: the partition of the record, if there is one
  pub deliver : ℕ → List Str → Result (Option ℕ)
  -- `await client.send(…)`, then the future
  pub deliver_message : Str → Result (Option ℕ)
  pub partitions : ℕ → ℕ

-- The state of a `KafkaProducerManager`. `i_partition` is `none` for the -1 of the source. The
-- last two fields record what was sent, for the statements: the partition that was asked for
-- with the messages of the batch, and how many batches were sent.
pub record Manager (S : SortedSet) : Type 0 where
  pub i_partition : Option ℕ
  pub redis : S.State
  pub sent : List (ℕ × List Str)
  pub n_sent : ℕ

-- The loop over a chunk: the messages in the batch.
unfoldable pub fill_batch : Broker → List Str → List Str → List Str
fill_batch b batch [] = batch
fill_batch b batch (msg ∷ msgs) =
    fill_batch b (if b.accepts batch msg then batch ++ (msg ∷ []) else batch) msgs

-- `except KafkaTimeoutError`: the error is logged, and the method returns `None`.
abbrev pub caught : {A : Type 0} → Result A → Result (Option A)
caught (ok a) = ok (some a)
caught (err kafka_timeout) = ok none
caught (err e) = err e

module _ (S : SortedSet) (b : Broker) where
  lowest : Manager S → ℕ
  unfolding get_lowest_score_partition
  lowest m = elim (get_lowest_score_partition S m.redis) [ none ↦ 0 | some k ↦ k ]

  -- `_choose_partition`, by the field `_i_partition`
  unfoldable pub choose_by : Option ℕ → M (Manager S) ℕ
  unfolding lowest
  choose_by (some i) m = (
    ok i,
    record m { i_partition = if i + 1 == b.partitions m.n_sent then none else some (i + 1) },
  )
  choose_by none m = (ok (lowest m), m)

  unfoldable pub choose_partition : M (Manager S) ℕ
  unfolding choose_by
  choose_partition m = choose_by m.i_partition m

  abbrev pub note_sent : ℕ → List Str → M (Manager S) (Unit {0})
  note_sent partition batch =
      modify (λ m. record m { sent = m.sent ++ ((partition, batch) ∷ []); n_sent = m.n_sent + 1 })

  abbrev pub count_sent : Option ℕ → ℕ → M (Manager S) (Unit {0})
  count_sent none n = pure tt
  count_sent (some partition) n =
      modify (λ m. record m { redis = incrby_n_transactions S partition (pos n) m.redis })

  -- The body of the loop over the chunks: the record of the batch, if there is one.
  unfoldable pub send_chunk : List Str → M (Manager S) (Option ℕ)
  unfolding incrby_n_transactions
  send_chunk chunk = do
    let batch = fill_batch b [] chunk
    partition ← choose_partition
    note_sent partition batch
    delivered ← lift (b.deliver partition batch)
    count_sent delivered (length batch)
    pure delivered

  unfoldable pub send_chunks : List (List Str) → M (Manager S) (List ℕ)
  send_chunks [] = pure []
  send_chunks (chunk ∷ chunks) = do
    r ← send_chunk chunk
    rs ← send_chunks chunks
    pure (elim r [ none ↦ rs | some k ↦ k ∷ rs ])

  abbrev catch_timeout : {A : Type 0} → M (Manager S) A → M (Manager S) (Option A)
  catch_timeout m s = let (r, s') = m s in (caught r, s')

  -- `send_batch` behind its decorator
  unfoldable pub send_batch : List Str → M (Manager S) (Option (List ℕ))
  unfolding send_chunks
  send_batch [] = pure (some [])
  send_batch (msg ∷ msgs) = catch_timeout (send_chunks (chunks_of messages_per_batch (msg ∷ msgs)))

  -- `send_message` behind its decorator. `KafkaTimeoutError` is a `KafkaError` caught first, and
  -- any other error goes on.
  unfoldable pub send_message : Str → M (Manager S) (Option ℕ)
  unfolding incrby_n_transactions
  send_message msg m = elim (b.deliver_message msg) [
    | ok delivered ↦ (count_sent delivered 1 >> pure delivered) m
    | err kafka_timeout ↦ (ok none, m)
    | err e ↦ (err e, m)
  ]
