-- ===== src/Flow/Bounds.antt =====
-- How far the topic can grow behind `limit_topic_capacity`: a task that has read a count within the
-- limit goes on to send whatever the other tasks have sent since.
use uzh_blockchain_data_coll.Base.{
  ℕ, ◌+◌, ◌*◌, ◌≤◌, ◌<◌, ◌≡◌, inl, inr, refl, arith, Bool-cases, ◌==◌, nat_eq,
}
use uzh_blockchain_data_coll.Base.Int.{pos, ◌+ℤ◌, ◌≤ℤ◌, int_laws}
use uzh_blockchain_data_coll.Redis.{SortedSet, IsLawful, get_n_transactions}
use uzh_blockchain_data_coll.Kafka.{Broker}
use uzh_blockchain_data_coll.Flow.Family.{
  assign, sum_of, sum_of-assign, sum_of-constant, sum_of_le, others_le,
}
use uzh_blockchain_data_coll.Flow.Tasks.{
  Shared, ProducerPc, ConsumerPc, Produce, Consume, idle, time_out, receive, decrement, handled,
  stop,
}
use uzh_blockchain_data_coll.Flow.System.{System, Size, Step, Reach, produce, consume, start, later}
use uzh_blockchain_data_coll.Flow.Allowed.{
  allowed, size, allowed_le, pending_le, Produce-size, Produce-allowed, limit,
}
use uzh_blockchain_data_coll.Flow.Count.{pending, n_waiting, n_txs, Reach-n_txs, decr_sum}

module _ {S : SortedSet} (L : IsLawful S) where
  Consume-n_txs_le :
      {n : ℕ} {s t : Shared S.State} {c d : ConsumerPc}
      → Consume S n s c t d
      → n_txs S t ≤ℤ n_txs S s
  Consume-n_txs_le {n} {s} (receive {msg} {rest} k h next) = omega arith
  Consume-n_txs_le {n} {s} (decrement k) = grind (int_laws, decr_sum L k s.redis)
  Consume-n_txs_le handled = omega arith
  Consume-n_txs_le stop = omega arith
  Consume-n_txs_le time_out = omega arith

  -- Every call is small, and what is in Redis and what is allowed stay within the bound.
  record IsBounded (z : Size) (s : System S.State) : Type 0 where
    small : (i : ℕ) → size (s.producers i) ≤ z.max_msgs
    bounded :
        n_txs S s.shared +ℤ pos (sum_of (allowed z.n_part) s.producers z.n_producers)
        ≤ℤ pos (limit z.n_part + z.n_producers * z.max_msgs)

  produce-bounded :
      {b : Broker} {z : Size} (s : System S.State) (i : ℕ) {t : Shared S.State} {p : ProducerPc}
      → i < z.n_producers
      → Produce S b z.n_part z.max_msgs s.shared (s.producers i) t p
      → IsBounded z s
      → size p ≤ z.max_msgs
      → n_txs S t +ℤ pos (sum_of (allowed z.n_part) (assign s.producers i p) z.n_producers)
        ≤ℤ pos (limit z.n_part + z.n_producers * z.max_msgs)
  produce-bounded {b} {z} s i {t} {p} h move inv small =
      let f = s.producers in
      let change = sum_of-assign (allowed z.n_part) f i p z.n_producers h in
      let bounded = inv.bounded in
      elim (Produce-allowed L move) [
        | inl before ↦ grind (int_laws, change, bounded, before)
        | inr (within, none_before) ↦
            let others =
              others_le (allowed z.n_part) f z.max_msgs i z.n_producers h
                (λ j. omega (arith, allowed_le z.n_part (f j), inv.small j)) in
            let now = allowed_le z.n_part p in
            grind (int_laws, change, within, none_before, others, now, small)
      ]

  Step-IsBounded :
      {b : Broker} {z : Size} {s t : System S.State}
      → Step S b z s t
      → IsBounded z s
      → IsBounded z t
  Step-IsBounded {b} {z} {s} (produce i {t} {p} h move) inv =
      let fits = Produce-size move (inv.small i) in
      record {
        small = λ j. elim (Bool-cases (i == j)) [
          | inl same ↦ ground (arith, same, fits)
          | inr other ↦ ground (arith, other, inv.small j)
        ];
        bounded = produce-bounded s i h move inv fits;
      }
  Step-IsBounded {b} {z} {s} (consume i h move) inv =
      let bounded = inv.bounded in
      record { small = inv.small; bounded = grind (int_laws, Consume-n_txs_le move, bounded) }

  Reach-IsBounded :
      {b : Broker} {z : Size} {redis : S.State} {s : System S.State}
      → get_n_transactions S redis ≡ pos 0
      → Reach S b z redis s
      → IsBounded z s
  Reach-IsBounded {b} {z} empty start = record {
    small = λ i. omega arith;
    bounded = grind (int_laws, empty, sum_of-constant (allowed z.n_part) idle z.n_producers refl);
  }
  Reach-IsBounded empty (later r step) = Step-IsBounded step (Reach-IsBounded empty r)

  -- In every reachable state of the tasks over a topic that was empty in Redis, Redis holds at
  -- most 1000 messages per partition and one call's messages for each producer more; and in the
  -- topic wait at most as many, and those that came without a record.
  pub Reach-n_waiting_le :
      (b : Broker) (z : Size) (redis : S.State) (s : System S.State)
      → get_n_transactions S redis ≡ pos 0
      → Reach S b z redis s
      → (n_txs S s.shared ≤ℤ pos (limit z.n_part + z.n_producers * z.max_msgs))
        × (n_waiting z.n_part s.shared
            ≤ limit z.n_part + z.n_producers * z.max_msgs + s.shared.uncounted)
  Reach-n_waiting_le b z redis s empty r =
      let bounded = (Reach-IsBounded empty r).bounded in
      let counted = Reach-n_txs L b z redis s r in
      let less =
        sum_of_le pending (allowed z.n_part) s.producers z.n_producers (pending_le z.n_part) in
      (grind (int_laws, bounded), grind (int_laws, bounded, counted, less, empty))
