-- ===== src/Flow/Allowed.antt =====
-- What a producer task may still send after its last look at Redis.
use uzh_blockchain_data_coll.Base.{
  ℕ, ◌+◌, ◌*◌, ◌≤◌, List, [], ◌∷◌, ◌++◌, ◌≡◌, ◌⊎◌, inl, inr, refl, arith, length, length-append,
  if◌then◌else◌, Bool-cases, ap, nat_eq,
}
use uzh_blockchain_data_coll.Base.Int.{ℤ, pos, ◌+ℤ◌, ◌≤ℤ◌, int_laws}
use uzh_blockchain_data_coll.Base.Text.{Str}
use uzh_blockchain_data_coll.Redis.{SortedSet, IsLawful, get_n_transactions}
use uzh_blockchain_data_coll.Kafka.{Broker, fill_batch}
use uzh_blockchain_data_coll.Kafka.Limits.{max_messages_per_partition, messages_per_batch}
use uzh_blockchain_data_coll.Kafka.Chunks.{chunks_of, concat, chunks_of_lem}
use uzh_blockchain_data_coll.Kafka.Capacity.{over_limit}
use uzh_blockchain_data_coll.Flow.Tasks.{
  Shared, ProducerPc, Produce, idle, reading, counted, sending, delivered, failed, call, read_some,
  read_empty, read_again, wait, enter, deliver, no_record, time_out, fail, count, return,
}
use uzh_blockchain_data_coll.Flow.Count.{pending, n_txs, count_sum, Unconfirmed-n_waiting}

length-fill_batch_le :
    (b : Broker) (batch msgs : List Str)
    → length (fill_batch b batch msgs) ≤ length batch + length msgs
unfolding fill_batch
length-fill_batch_le b batch [] = omega arith
length-fill_batch_le b batch (msg ∷ msgs) = elim (Bool-cases (b.accepts batch msg)) [
  | inl yes' ↦
      ground
        (arith, length-append batch (msg ∷ []), length-fill_batch_le b (batch ++ (msg ∷ [])) msgs)
  | inr no' ↦ ground (arith, length-fill_batch_le b batch msgs)
]

-- The messages that a task may still add to the count of Redis without another look at it.
abbrev pub allowed : ℕ → ProducerPc → ℕ
allowed n (counted msgs stall k) =
    if over_limit (record { n_txs = k; n_part = n }) then 0 else length msgs
allowed n (sending chunks) = length (concat chunks)
allowed n (delivered k j chunks) = j + length (concat chunks)
allowed n _ = 0

-- The messages of the call that are not in Redis yet.
abbrev pub size : ProducerPc → ℕ
size (reading msgs stall) = length msgs
size (counted msgs stall k) = length msgs
size (sending chunks) = length (concat chunks)
size (delivered k j chunks) = j + length (concat chunks)
size _ = 0

pub allowed_le : (n : ℕ) (p : ProducerPc) → allowed n p ≤ size p
allowed_le n idle = omega arith
allowed_le n (reading msgs stall) = omega arith
allowed_le n (counted msgs stall k) = ground arith
allowed_le n (sending chunks) = omega arith
allowed_le n (delivered k j chunks) = omega arith
allowed_le n failed = omega arith

pub pending_le : (n : ℕ) (p : ProducerPc) → pending p ≤ allowed n p
pending_le n idle = omega arith
pending_le n (reading msgs stall) = omega arith
pending_le n (counted msgs stall k) = omega arith
pending_le n (sending chunks) = omega arith
pending_le n (delivered k j chunks) = omega arith
pending_le n failed = omega arith

-- The chunks of a call have as many messages as the call.
length-concat-chunks_of :
    (msgs : List Str) → length (concat (chunks_of messages_per_batch msgs)) ≡ length msgs
length-concat-chunks_of msgs = ap length (chunks_of_lem messages_per_batch msgs (omega arith)).0

pub Produce-size :
    {S : SortedSet} {b : Broker} {n m : ℕ} {s t : Shared S.State} {p q : ProducerPc}
    → Produce S b n m s p t q
    → size p ≤ m
    → size q ≤ m
Produce-size (call msgs small) h = small
Produce-size (read_some some_left) h = h
Produce-size (read_empty {msgs} none_left) h = ground (arith, length-concat-chunks_of msgs)
Produce-size (read_again none_left stalled) h = h
Produce-size (wait over) h = h
Produce-size (enter {msgs} within) h = ground (arith, length-concat-chunks_of msgs)
Produce-size {S} {b} (deliver {chunk} {chunks} k lt) h =
    ground (arith, length-fill_batch_le b [] chunk, length-append chunk (concat chunks))
Produce-size (no_record {chunk} {chunks} u) h = ground (arith, length-append chunk (concat chunks))
Produce-size (time_out u) h = omega arith
Produce-size (fail u) h = omega arith
Produce-size (count k j) h = omega arith
Produce-size return h = omega arith

abbrev pub limit : ℕ → ℕ
limit n_part = max_messages_per_partition * n_part

module _ {S : SortedSet} (L : IsLawful S) where
  add_pos_le : (a b : ℤ) (i j : ℕ) → a ≡ b → i ≤ j → a +ℤ pos i ≤ℤ b +ℤ pos j
  add_pos_le a b i j same le = grind int_laws

  -- A step either has been allowed before, or is the look at a count within the limit.
  pub Produce-allowed :
      {b : Broker} {n m : ℕ} {s t : Shared S.State} {p q : ProducerPc}
      → Produce S b n m s p t q
      → (n_txs S t +ℤ pos (allowed n q) ≤ℤ n_txs S s +ℤ pos (allowed n p))
        ⊎ ((n_txs S t ≤ℤ pos (limit n)) × (allowed n p ≡ 0))
  Produce-allowed (call msgs small) = inl (add_pos_le _ _ _ _ refl (omega arith))
  Produce-allowed {b} {n} {m} {s} (read_some {msgs} some_left) =
      elim (Bool-cases (over_limit (record { n_txs = n_txs S s; n_part = n }))) [
        | inl over ↦ inl (add_pos_le _ _ _ _ refl (ground (arith, over)))
        | inr within ↦ inr (ground (arith, within), refl)
      ]
  Produce-allowed (read_empty none_left) = inr (ground (arith, none_left), refl)
  Produce-allowed (read_again none_left stalled) = inl (add_pos_le _ _ _ _ refl (omega arith))
  Produce-allowed (wait over) = inl (add_pos_le _ _ _ _ refl (omega arith))
  Produce-allowed (enter {msgs} within) =
      inl (add_pos_le _ _ _ _ refl (ground (arith, within, length-concat-chunks_of msgs)))
  Produce-allowed {b} (deliver {chunk} {chunks} k lt) = inl (
      add_pos_le _ _ _ _ refl
        (omega (arith, length-fill_batch_le b [] chunk, length-append chunk (concat chunks))))
  Produce-allowed (no_record {chunk} {chunks} u) = inl (
      add_pos_le _ _ _ _ (ap (get_n_transactions S) (Unconfirmed-n_waiting u).0)
        (omega (arith, length-append chunk (concat chunks))))
  Produce-allowed (time_out u) =
      inl (add_pos_le _ _ _ _ (ap (get_n_transactions S) (Unconfirmed-n_waiting u).0) (omega arith))
  Produce-allowed (fail u) =
      inl (add_pos_le _ _ _ _ (ap (get_n_transactions S) (Unconfirmed-n_waiting u).0) (omega arith))
  Produce-allowed {b} {n} {m} {s} (count {chunks} k j) =
      inl (grind (int_laws, count_sum L k (pos j) s.redis))
  Produce-allowed return = inl (add_pos_le _ _ _ _ refl (omega arith))
