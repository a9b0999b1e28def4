-- ===== src/Kafka/Partition.antt =====
-- `_choose_partition` and `send_batch` with a fixed number of partitions: every batch goes to a
-- partition that exists, the first batches to each partition in turn.
use uzh_blockchain_data_coll.Kafka.Limits.{messages_per_batch}
use uzh_blockchain_data_coll.Kafka.Chunks.{chunks_of, chunks_of_lem, concat}
use uzh_blockchain_data_coll.Base.{
  append-nil, append_assoc, ap, sym, ◌∙◌, true, if◌then◌else◌, ℕ, ◌+◌, ◌<◌, Option, none, some,
  List, [], ◌∷◌, ◌++◌, ◌≡◌, refl, arith, ◌==◌, nat_eq, length,
}
use mathlib.Core.Path.{subst}
use uzh_blockchain_data_coll.Base.Int.{ℤ, pos, ◌+ℤ◌, int_laws}
use uzh_blockchain_data_coll.Base.Text.{Str}
use uzh_blockchain_data_coll.Errors.{ok}
use uzh_blockchain_data_coll.Redis.{
  SortedSet, IsLawful, AllBelow, get_n_transactions, incrby_n_transactions,
}
use uzh_blockchain_data_coll.Kafka.{
  Broker, Manager, choose_by, lowest, choose_partition, send_chunk, send_chunks, fill_batch,
  send_batch,
}

-- The number of messages in batches.
abbrev pub count_messages : List (ℕ × List Str) → ℕ
count_messages [] = 0
count_messages ((k, batch) ∷ sent) = length batch + count_messages sent

abbrev pub AllInRange : ℕ → List (ℕ × List Str) → Type 0
AllInRange n [] = Unit
AllInRange n ((k, batch) ∷ sent) = (k < n) × AllInRange n sent

abbrev pub IsBelow : ℕ → Option ℕ → Type 0
IsBelow n none = Unit
IsBelow n (some i) = i < n

AllInRange-append :
    (n : ℕ) (xs : List (ℕ × List Str)) (k : ℕ) (batch : List Str)
    → AllInRange n xs
    → k < n
    → AllInRange n (xs ++ ((k, batch) ∷ []))
AllInRange-append n [] k batch h lt = (lt, tt)
AllInRange-append n (x ∷ xs) k batch h lt = (h.0, AllInRange-append n xs k batch h.1 lt)

-- The messages of batches, in order.
abbrev pub messages : List (ℕ × List Str) → List Str
messages [] = []
messages ((k, batch) ∷ sent) = batch ++ messages sent

messages-append :
    (xs : List (ℕ × List Str)) (k : ℕ) (batch : List Str)
    → messages (xs ++ ((k, batch) ∷ [])) ≡ messages xs ++ batch
messages-append [] k batch = append-nil _
messages-append ((j, c) ∷ xs) k batch =
    ap (λ t. c ++ t) (messages-append xs k batch) ∙ sym (append_assoc c (messages xs) batch)

count_messages-append :
    (xs : List (ℕ × List Str)) (k : ℕ) (batch : List Str)
    → count_messages (xs ++ ((k, batch) ∷ [])) ≡ count_messages xs + length batch
count_messages-append [] k batch = omega arith
count_messages-append (x ∷ xs) k batch = omega (arith, count_messages-append xs k batch)

-- A batch that takes every message holds the chunk.
fill_batch_all :
    (b : Broker)
    → ((held : List Str) (msg : Str) → b.accepts held msg ≡ true)
    → (held chunk : List Str) → fill_batch b held chunk ≡ held ++ chunk
unfolding fill_batch
fill_batch_all b accepts held [] = sym (append-nil _)
fill_batch_all b accepts held (msg ∷ chunk) =
    rw (accepts held msg)
      (fill_batch_all b accepts (held ++ (msg ∷ [])) chunk ∙ append_assoc held (msg ∷ []) chunk)

module _ (S : SortedSet) (b : Broker) (n : ℕ) (base : ℤ) where
  -- What holds of a manager between its calls: partitions that exist, and in Redis the number of
  -- messages sent on top of a base.
  pub record IsSound (m : Manager S) : Type 0 where
    pub next : IsBelow n m.i_partition
    pub members : AllBelow n (S.zrange m.redis)
    pub targets : AllInRange n m.sent
    pub counted : get_n_transactions S m.redis ≡ base +ℤ pos (count_messages m.sent)

  module _ (L : IsLawful S) (some_partition : 0 < n) (fixed : (i : ℕ) → b.partitions i ≡ n)
      (delivers : (k : ℕ) (batch : List Str) → b.deliver k batch ≡ ok (some k)) where
    lowest_lt : (m : Manager S) → IsSound m → lowest S b m < n
    unfolding lowest
    lowest_lt m h = ground arith

    -- The partition chosen, and the next value of `_i_partition`.
    target : Option ℕ → Manager S → ℕ
    target (some i) m = i
    target none m = lowest S b m

    following : Option ℕ → Option ℕ
    following none = none
    following (some i) = if i + 1 == n then none else some (i + 1)

    choose_by_lem :
        (o : Option ℕ) (m : Manager S)
        → o ≡ m.i_partition
        → IsSound m
        → (choose_by S b o m ≡ (ok (target o m), record m { i_partition = following o }))
          × (target o m < n)
          × IsBelow n (following o)
    unfolding choose_by target following
    choose_by_lem none m e h = (ground arith, lowest_lt m h, tt)
    choose_by_lem (some i) m e h =
        let below : i < n = subst (IsBelow n) (sym e) h.next in
        (rw (fixed m.n_sent) refl, below, ground arith)

    -- The manager after a chunk, and what it has sent.
    sent_chunk : List Str → Manager S → Manager S
    sent_chunk chunk m =
        let k = target m.i_partition m in
        let batch = fill_batch b [] chunk in
        record m {
          i_partition = following m.i_partition;
          redis = incrby_n_transactions S k (pos (length batch)) m.redis;
          sent = m.sent ++ ((k, batch) ∷ []);
          n_sent = m.n_sent + 1;
        }

    send_chunk_lem :
        (chunk : List Str) (m : Manager S)
        → IsSound m
        → send_chunk S b chunk m ≡ (ok (some (target m.i_partition m)), sent_chunk chunk m)
    unfolding send_chunk choose_partition sent_chunk
    send_chunk_lem chunk m h = ground (
      arith,
      choose_by_lem m.i_partition m refl h,
      delivers (target m.i_partition m) (fill_batch b [] chunk),
    )

    sent_chunk-IsSound :
        (chunk : List Str) (m : Manager S) → IsSound m → IsSound (sent_chunk chunk m)
    unfolding sent_chunk incrby_n_transactions get_n_transactions
    sent_chunk-IsSound chunk m h =
        let k = target m.i_partition m in
        let batch = fill_batch b [] chunk in
        let chosen = choose_by_lem m.i_partition m refl h in
        record {
          next = chosen.2;
          members = L.zincrby_below n m.redis (pos (length batch)) k chosen.1 h.members;
          targets = AllInRange-append n m.sent k batch h.targets chosen.1;
          counted =
              L.zincrby_sum m.redis (pos (length batch)) k
              ∙ ap (λ x. x +ℤ pos (length batch)) h.counted
              ∙ rw count_messages-append (omega int_laws);
        }

    sent_all : List (List Str) → Manager S → Manager S
    sent_all [] m = m
    sent_all (chunk ∷ chunks) m = sent_all chunks (sent_chunk chunk m)

    sent_all-IsSound :
        (chunks : List (List Str)) (m : Manager S) → IsSound m → IsSound (sent_all chunks m)
    unfolding sent_all
    sent_all-IsSound [] m h = h
    sent_all-IsSound (chunk ∷ chunks) m h =
        sent_all-IsSound chunks (sent_chunk chunk m) (sent_chunk-IsSound chunk m h)

    send_chunks_lem :
        (chunks : List (List Str)) (m : Manager S)
        → IsSound m
        → (ks : List ℕ) × (send_chunks S b chunks m ≡ (ok ks, sent_all chunks m))
    unfolding send_chunks sent_all
    send_chunks_lem [] m h = ([], refl)
    send_chunks_lem (chunk ∷ chunks) m h =
        let (ks, e) = send_chunks_lem chunks (sent_chunk chunk m) (sent_chunk-IsSound chunk m h) in
        (target m.i_partition m ∷ ks, ground (arith, send_chunk_lem chunk m h, e))

    sent_all-messages :
        ((held : List Str) (msg : Str) → b.accepts held msg ≡ true)
        → (chunks : List (List Str)) (m : Manager S)
        → messages (sent_all chunks m).sent ≡ messages m.sent ++ concat chunks
    unfolding sent_all sent_chunk
    sent_all-messages accepts [] m = sym (append-nil _)
    sent_all-messages accepts (chunk ∷ chunks) m =
        sent_all-messages accepts chunks (sent_chunk chunk m)
        ∙ rw (messages-append, fill_batch_all b accepts [] chunk)
            (append_assoc (messages m.sent) chunk (concat chunks))

    send_batch_lem :
        (msgs : List Str) (m : Manager S)
        → IsSound m
        → (ks : List ℕ) × (m' : Manager S) × (send_batch S b msgs m ≡ (ok (some ks), m'))
          × IsSound m'
          × (((held : List Str) (msg : Str) → b.accepts held msg ≡ true)
              → messages m'.sent ≡ messages m.sent ++ msgs)
    unfolding send_batch
    send_batch_lem [] m h = ([], m, refl, h, λ accepts. sym (append-nil _))
    send_batch_lem (msg ∷ msgs) m h =
        let chunks = chunks_of messages_per_batch (msg ∷ msgs) in
        let (ks, e) = send_chunks_lem chunks m h in
        (
          ks,
          sent_all chunks m,
          ground (arith, e),
          sent_all-IsSound chunks m h,
          λ accepts.
              sent_all-messages accepts chunks m
              ∙ ap (λ t. messages m.sent ++ t)
                  (chunks_of_lem messages_per_batch (msg ∷ msgs) (omega arith)).0,
        )

    -- With a broker that has n > 0 partitions throughout and confirms every batch on the
    -- partition asked for, and a lawful Redis, send_batch returns, and keeps that batches go to
    -- partitions below n and that Redis counts the messages in the batches.
    pub send_batch-IsSound :
        (msgs : List Str) (m : Manager S)
        → IsSound m
        → (ks : List ℕ) × (m' : Manager S) × (send_batch S b msgs m ≡ (ok (some ks), m'))
          × IsSound m'
    send_batch-IsSound msgs m h =
        let (ks, m', sent, sound, whole) = send_batch_lem msgs m h in (ks, m', sent, sound)

    -- With a broker that has n > 0 partitions throughout, confirms every batch on the partition
    -- asked for and takes every message into its batch, and a lawful Redis, send_batch delivers
    -- exactly the given messages, in order, to partitions below n, and Redis counts them.
    pub send_batch-messages :
        ((held : List Str) (msg : Str) → b.accepts held msg ≡ true)
        → (msgs : List Str) (m : Manager S) → IsSound m
        → (ks : List ℕ) × (m' : Manager S) × (send_batch S b msgs m ≡ (ok (some ks), m'))
          × IsSound m'
          × (messages m'.sent ≡ messages m.sent ++ msgs)
    send_batch-messages accepts msgs m h =
        let (ks, m', sent, sound, whole) = send_batch_lem msgs m h in
        (ks, m', sent, sound, whole accepts)
