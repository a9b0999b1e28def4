-- ===== src/Flow/System.antt =====
-- The producer tasks and the consumer tasks of one topic, interleaved in any order. An index that
-- names no task stays where every task begins.
use uzh_blockchain_data_coll.Base.{ℕ, ◌<◌, []}
use uzh_blockchain_data_coll.Redis.{SortedSet}
use uzh_blockchain_data_coll.Kafka.{Broker}
use uzh_blockchain_data_coll.Flow.Family.{assign}
use uzh_blockchain_data_coll.Flow.Tasks.{
  Shared, ProducerPc, idle, ConsumerPc, listening, Produce, Consume,
}

pub record System (R : Type 0) : Type 0 where
  pub shared : Shared R
  pub producers : ℕ → ProducerPc
  pub consumers : ℕ → ConsumerPc

-- What does not change: the numbers of partitions and of tasks, and the most messages of a call.
pub record Size : Type 0 where
  pub n_part : ℕ
  pub max_msgs : ℕ
  pub n_producers : ℕ
  pub n_consumers : ℕ

-- An empty topic, with Redis in the given state.
abbrev pub init : {R : Type 0} → R → System R
init redis = record {
  shared = record {
    redis = redis;
    waiting = λ _. [];
    arrived = λ _. [];
    received = λ _. [];
    uncounted = 0;
  };
  producers = λ _. idle;
  consumers = λ _. listening;
}

module _ (S : SortedSet) (b : Broker) (z : Size) where
  pub data Step (s : System S.State) : System S.State → Type 0 where
    produce :
        (i : ℕ) {t : Shared S.State} {p : ProducerPc}
        → i < z.n_producers
        → Produce S b z.n_part z.max_msgs s.shared (s.producers i) t p
        → Step s (record s { shared = t; producers = assign s.producers i p })
    consume :
        (i : ℕ) {t : Shared S.State} {c : ConsumerPc}
        → i < z.n_consumers
        → Consume S z.n_part s.shared (s.consumers i) t c
        → Step s (record s { shared = t; consumers = assign s.consumers i c })

  pub data Reach (redis : S.State) : System S.State → Type 0 where
    start : Reach redis (init redis)
    later : {s t : System S.State} → Reach redis s → Step s t → Reach redis t
