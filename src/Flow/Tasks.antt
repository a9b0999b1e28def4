-- ===== src/Flow/Tasks.antt =====
-- One producer task and one consumer task, from one `await` to the next.
-- A producer sends for one configuration, a consumer is one of N_CONSUMER_INSTANCES.
use uzh_blockchain_data_coll.Base.{
  ℕ, ◌+◌, ◌≤◌, ◌<◌, true, false, List, [], ◌∷◌, ◌++◌, ◌≡◌, ◌≢◌, length,
}
use uzh_blockchain_data_coll.Base.Int.{ℤ, pos}
use uzh_blockchain_data_coll.Base.Text.{Str}
use uzh_blockchain_data_coll.Redis.{
  SortedSet, get_n_transactions, incrby_n_transactions, decr_transactions,
}
use uzh_blockchain_data_coll.Kafka.{Broker, fill_batch}
use uzh_blockchain_data_coll.Kafka.Limits.{messages_per_batch}
use uzh_blockchain_data_coll.Kafka.Chunks.{chunks_of}
use uzh_blockchain_data_coll.Kafka.Capacity.{over_limit}
use uzh_blockchain_data_coll.Flow.Family.{assign}

-- What the tasks share: Redis, and of the topic the messages of each partition that no consumer has
-- received. The last three fields record, for the statements, what each partition was given, what
-- was received from it, and how many messages came there without a record for the producer.
pub record Shared (R : Type 0) : Type 0 where
  pub redis : R
  pub waiting : ℕ → List Str
  pub arrived : ℕ → List Str
  pub received : ℕ → List Str
  pub uncounted : ℕ

-- Where a producer task stands, with the local variables that are live there. A task that an
-- exception of Redis ends stays where it stands.
pub data ProducerPc : Type 0 where
  idle : ProducerPc  -- between two calls of `send_batch`
  reading : (msgs : List Str) (stall : ℕ) → ProducerPc  -- before `get_n_transactions`
  counted : (msgs : List Str) (stall : ℕ) (n_txs : ℤ) → ProducerPc  -- before `number_of_partitions`
  sending : (chunks : List (List Str)) → ProducerPc  -- head of the loop over the chunks
  delivered : (partition n_messages : ℕ) (chunks : List (List Str)) → ProducerPc  -- before `incrby`
  failed : ProducerPc  -- `send_batch` has raised

-- Where a consumer task stands; again a task that Redis ends stays there.
pub data ConsumerPc : Type 0 where
  listening : ConsumerPc  -- head of `async for`
  received : (partition : ℕ) (msg : Str) → ConsumerPc  -- before `decr_transactions`
  handling : (msg : Str) → ConsumerPc  -- in the callback
  ended : ConsumerPc  -- the callback has raised, or the timeout task has

module _ {R : Type 0} where
  -- A batch comes to partition k.
  abbrev pub arrive : ℕ → List Str → Shared R → Shared R
  arrive k batch s = record s {
    waiting = assign s.waiting k (s.waiting k ++ batch);
    arrived = assign s.arrived k (s.arrived k ++ batch);
  }

  abbrev pub arrive_uncounted : ℕ → List Str → Shared R → Shared R
  arrive_uncounted k batch s = record (arrive k batch s) { uncounted = s.uncounted + length batch }

  -- What may have become of a batch for which the producer has no record: it is lost, or it has come
  -- to one of the n partitions all the same.
  pub data Unconfirmed (n : ℕ) (batch : List Str) (s : Shared R) : Shared R → Type 0 where
    lost : Unconfirmed n batch s s
    unseen : (k : ℕ) → k < n → Unconfirmed n batch s (arrive_uncounted k batch s)

module _ (S : SortedSet) (b : Broker) (n_part max_msgs : ℕ) where
  -- `send_batch` with its decorator. The partition that the broker reports is left open, and so
  -- are the calls, which have at most `max_msgs` messages each.
  pub data Produce (s : Shared S.State) : ProducerPc → Shared S.State → ProducerPc → Type 0 where
    call : (msgs : List Str) → length msgs ≤ max_msgs → Produce s idle s (reading msgs 0)
    -- `n_txs := await …` is truthy
    read_some :
        {msgs : List Str} {stall : ℕ}
        → get_n_transactions S s.redis ≢ pos 0
        → Produce s (reading msgs stall) s (counted msgs stall (get_n_transactions S s.redis))
    -- `elif stall_counter == 0: break`
    read_empty :
        {msgs : List Str}
        → get_n_transactions S s.redis ≡ pos 0
        → Produce s (reading msgs 0) s (sending (chunks_of messages_per_batch msgs))
    -- neither: the loop goes on
    read_again :
        {msgs : List Str} {stall : ℕ}
        → get_n_transactions S s.redis ≡ pos 0
        → 0 < stall
        → Produce s (reading msgs stall) s (reading msgs stall)
    -- `sleep(1)`, then `continue`
    wait :
        {msgs : List Str} {stall : ℕ} {n : ℤ}
        → over_limit (record { n_txs = n; n_part = n_part }) ≡ true
        → Produce s (counted msgs stall n) s (reading msgs (stall + 1))
    -- `waiting_for_space = False`
    enter :
        {msgs : List Str} {stall : ℕ} {n : ℤ}
        → over_limit (record { n_txs = n; n_part = n_part }) ≡ false
        → Produce s (counted msgs stall n) s (sending (chunks_of messages_per_batch msgs))
    -- `record = await send_fut`
    deliver :
        {chunk : List Str} {chunks : List (List Str)}
        → (k : ℕ) → k < n_part
        → Produce s
            (sending (chunk ∷ chunks))
            (arrive k (fill_batch b [] chunk) s)
            (delivered k (length (fill_batch b [] chunk)) chunks)
    -- the same, and there is no record
    no_record :
        {chunk : List Str} {chunks : List (List Str)} {t : Shared S.State}
        → Unconfirmed n_part (fill_batch b [] chunk) s t
        → Produce s (sending (chunk ∷ chunks)) t (sending chunks)
    -- `except KafkaTimeoutError`: the rest of the chunks is given up
    time_out :
        {chunk : List Str} {chunks : List (List Str)} {t : Shared S.State}
        → Unconfirmed n_part (fill_batch b [] chunk) s t
        → Produce s (sending (chunk ∷ chunks)) t idle
    -- any other exception of the client
    fail :
        {chunk : List Str} {chunks : List (List Str)} {t : Shared S.State}
        → Unconfirmed n_part (fill_batch b [] chunk) s t
        → Produce s (sending (chunk ∷ chunks)) t failed
    count :
        {chunks : List (List Str)}
        → (k n : ℕ)
        → Produce s
            (delivered k n chunks)
            (record s { redis = incrby_n_transactions S k (pos n) s.redis })
            (sending chunks)
    return : Produce s (sending []) s idle

module _ (S : SortedSet) (n_part : ℕ) where
  -- `_start_listening_on_topic_task`. The group of the consumers gives a message to one of them, in
  -- the order of its partition.
  pub data Consume (s : Shared S.State) : ConsumerPc → Shared S.State → ConsumerPc → Type 0 where
    receive :
        {msg : Str} {rest : List Str}
        → (k : ℕ) → k < n_part
        → s.waiting k ≡ msg ∷ rest
        → Consume s listening
            (record s {
              waiting = assign s.waiting k rest;
              received = assign s.received k (s.received k ++ (msg ∷ []));
            })
            (received k msg)
    decrement :
        {msg : Str}
        → (k : ℕ)
        → Consume s
            (received k msg)
            (record s { redis = decr_transactions S k s.redis })
            (handling msg)
    handled : {msg : Str} → Consume s (handling msg) s listening
    stop : {msg : Str} → Consume s (handling msg) s ended
    time_out : Consume s listening s ended
