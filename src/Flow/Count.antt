-- ===== src/Flow/Count.antt =====
-- The number that Redis holds and the messages that wait in the topic, while the tasks run.
use uzh_blockchain_data_coll.Base.{
  ℕ, ◌+◌, ◌<◌, List, [], ◌++◌, ◌≡◌, refl, arith, length, length-append,
}
use uzh_blockchain_data_coll.Base.Int.{ℤ, pos, negsuc, ◌+ℤ◌, int_laws}
use uzh_blockchain_data_coll.Base.Text.{Str}
use uzh_blockchain_data_coll.Redis.{
  SortedSet, IsLawful, get_n_transactions, incrby_n_transactions, decr_transactions,
}
use uzh_blockchain_data_coll.Kafka.{Broker, fill_batch}
use uzh_blockchain_data_coll.Flow.Family.{sum_of, sum_of-assign, sum_of-constant}
use uzh_blockchain_data_coll.Flow.Tasks.{
  Shared, ProducerPc, ConsumerPc, Unconfirmed, Produce, Consume, arrive, lost, unseen, idle,
  delivered, listening, received, call, read_some, read_empty, read_again, wait, enter, deliver,
  no_record, time_out, fail, count, return, receive, decrement, handled, stop,
}
use uzh_blockchain_data_coll.Flow.System.{System, Size, Step, Reach, produce, consume, start, later}

-- The messages of a producer that are in the topic and not yet in Redis.
abbrev pub pending : ProducerPc → ℕ
pending (delivered k n chunks) = n
pending _ = 0

-- The messages of a consumer that are no longer in the topic and still in Redis.
abbrev pub owed : ConsumerPc → ℕ
owed (received k msg) = 1
owed _ = 0

-- The messages that wait in the first n partitions.
abbrev pub n_waiting : {R : Type 0} → ℕ → Shared R → ℕ
n_waiting n s = sum_of length s.waiting n

n_waiting-arrive :
    {R : Type 0} (n k : ℕ) (batch : List Str) (s : Shared R)
    → k < n
    → n_waiting n (arrive k batch s) ≡ n_waiting n s + length batch
n_waiting-arrive n k batch s h = omega (
  arith,
  sum_of-assign length s.waiting k (s.waiting k ++ batch) n h,
  length-append (s.waiting k) batch,
)

-- What comes without a record changes nothing in Redis, and all of it is noted.
pub Unconfirmed-n_waiting :
    {R : Type 0} {n : ℕ} {batch : List Str} {s t : Shared R}
    → Unconfirmed n batch s t
    → (t.redis ≡ s.redis) × (n_waiting n t + s.uncounted ≡ n_waiting n s + t.uncounted)
Unconfirmed-n_waiting lost = (refl, refl)
Unconfirmed-n_waiting {R} {n} {batch} {s} (unseen k h) =
    (refl, ground (arith, n_waiting-arrive n k batch s h))

-- The number that Redis holds for all partitions together.
abbrev pub n_txs : (S : SortedSet) → Shared S.State → ℤ
n_txs S s = get_n_transactions S s.redis

module _ {S : SortedSet} (L : IsLawful S) where
  pub count_sum :
      (k : ℕ) (i : ℤ) (s : S.State)
      → get_n_transactions S (incrby_n_transactions S k i s) ≡ get_n_transactions S s +ℤ i
  unfolding get_n_transactions incrby_n_transactions
  count_sum k i s = L.zincrby_sum s i k

  pub decr_sum :
      (k : ℕ) (s : S.State)
      → get_n_transactions S (decr_transactions S k s) ≡ get_n_transactions S s +ℤ negsuc 0
  unfolding decr_transactions
  decr_sum k s = count_sum k (negsuc 0) s

  module _ {n : ℕ} where
    Unconfirmed-n_txs :
        {batch : List Str} {s t : Shared S.State}
        → Unconfirmed n batch s t
        → n_txs S t +ℤ pos (0 + t.uncounted + n_waiting n s)
          ≡ n_txs S s +ℤ pos (0 + s.uncounted + n_waiting n t)
    Unconfirmed-n_txs u = let (same, noted) = Unconfirmed-n_waiting u in ground (arith, same, noted)

    Produce-n_txs :
        {b : Broker} {m : ℕ} {s t : Shared S.State} {p q : ProducerPc}
        → Produce S b n m s p t q
        → n_txs S t +ℤ pos (pending q + t.uncounted + n_waiting n s)
          ≡ n_txs S s +ℤ pos (pending p + s.uncounted + n_waiting n t)
    Produce-n_txs (call msgs small) = refl
    Produce-n_txs (read_some some_left) = refl
    Produce-n_txs (read_empty none_left) = refl
    Produce-n_txs (read_again none_left stalled) = refl
    Produce-n_txs (wait over) = refl
    Produce-n_txs (enter within) = refl
    Produce-n_txs {b} {m} {s} (deliver {chunk} k h) =
        ground (arith, n_waiting-arrive n k (fill_batch b [] chunk) s h)
    Produce-n_txs (no_record u) = Unconfirmed-n_txs u
    Produce-n_txs (time_out u) = Unconfirmed-n_txs u
    Produce-n_txs (fail u) = Unconfirmed-n_txs u
    Produce-n_txs {b} {m} {s} (count k j) = grind (int_laws, count_sum k (pos j) s.redis)
    Produce-n_txs return = refl

    Consume-n_txs :
        {s t : Shared S.State} {c d : ConsumerPc}
        → Consume S n s c t d
        → (n_txs S t +ℤ pos (owed c + n_waiting n s) ≡ n_txs S s +ℤ pos (owed d + n_waiting n t))
          × (t.uncounted ≡ s.uncounted)
    Consume-n_txs {s} (receive {msg} {rest} k h next) =
        (ground (arith, sum_of-assign length s.waiting k rest n h), refl)
    Consume-n_txs {s} (decrement k) = (grind (int_laws, decr_sum k s.redis), refl)
    Consume-n_txs handled = (refl, refl)
    Consume-n_txs stop = (refl, refl)
    Consume-n_txs time_out = (refl, refl)

  -- The difference to what Redis held at first.
  abbrev IsCounted : Size → ℤ → System S.State → Type 0
  IsCounted z base s =
      n_txs S s.shared +ℤ pos (sum_of pending s.producers z.n_producers + s.shared.uncounted)
      ≡ base +ℤ pos (n_waiting z.n_part s.shared + sum_of owed s.consumers z.n_consumers)

  Step-IsCounted :
      {b : Broker} {z : Size} {s t : System S.State} (base : ℤ)
      → Step S b z s t
      → IsCounted z base s
      → IsCounted z base t
  Step-IsCounted {b} {z} {s} base (produce i {t} {p} h move) c =
      grind (int_laws, sum_of-assign pending s.producers i p z.n_producers h, Produce-n_txs move)
  Step-IsCounted {b} {z} {s} base (consume i {t} {c = d} h move) c =
      let (same, kept) = Consume-n_txs move in
      grind (int_laws, sum_of-assign owed s.consumers i d z.n_consumers h, same, kept)

  -- In every reachable state of the tasks over a lawful Redis, its count with the messages that
  -- are delivered and not counted yet, and with those that came without a record, is the count
  -- at the beginning with the messages that wait in the topic and those that are received and
  -- not yet taken off.
  pub Reach-n_txs :
      (b : Broker) (z : Size) (redis : S.State) (s : System S.State)
      → Reach S b z redis s
      → n_txs S s.shared +ℤ pos (sum_of pending s.producers z.n_producers + s.shared.uncounted)
        ≡ get_n_transactions S redis
          +ℤ pos (n_waiting z.n_part s.shared + sum_of owed s.consumers z.n_consumers)
  Reach-n_txs b z redis s start = ground (
    arith,
    sum_of-constant pending idle z.n_producers refl,
    sum_of-constant (length {A = Str}) [] z.n_part refl,
    sum_of-constant owed listening z.n_consumers refl,
  )
  Reach-n_txs b z redis s (later {s = t} r step) =
      Step-IsCounted (get_n_transactions S redis) step (Reach-n_txs b z redis t r)
