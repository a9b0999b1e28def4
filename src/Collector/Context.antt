-- ===== src/Collector/Context.antt =====
-- utils/data_collector.py, `async with` of a `DataCollector`: the connections that it opens and closes.
use uzh_blockchain_data_coll.Base.{
  ℕ, Option, none, some, Bool, true, false, not, ◌≡◌, refl, arith, inl, inr,
}
use uzh_blockchain_data_coll.Errors.{Exc, M, Result, ok, err, ◌>>◌, Result-cases}
use uzh_blockchain_data_coll.Kafka.Connect.{Attempt, connect, connect_ok}

-- Whether the client of Kafka is in use, which it is from its first start until it is stopped, and
-- whether the connection to PostgreSQL is open.
pub record Connections : Type 0 where
  pub kafka : Bool
  pub postgres : Bool

-- The exceptions of the calls of `client.start()` and of `client.stop()` in `KafkaManager.connect`,
-- what `asyncpg.connect` comes to, and the exception of `client.stop()` in `__aexit__`.
pub record Answers : Type 0 where
  pub start : ℕ → Option Exc
  pub give_up : Option Exc
  pub db : Result (Unit {0})
  pub stop : Option Exc

module _ (a : Answers) where
  abbrev pub kafka_attempt : Attempt
  kafka_attempt = connect a.start a.give_up

  -- `self.kafka_manager.connect()`
  unfoldable pub connect_kafka : M Connections (Unit {0})
  connect_kafka c = (kafka_attempt.outcome, record c { kafka = not (kafka_attempt.stopped) })

  -- `self.db_manager.connect()`
  unfoldable pub connect_db : M Connections (Unit {0})
  connect_db c = elim a.db [ ok u ↦ (ok tt, record c { postgres = true }) | err e ↦ (err e, c) ]

  -- `__aenter__`
  unfoldable pub aenter : M Connections (Unit {0})
  unfolding connect_kafka connect_db
  aenter = connect_kafka >> connect_db

  -- `__aexit__`
  unfoldable pub aexit : M Connections (Unit {0})
  aexit c = elim a.stop [ none ↦ (ok tt, record c { kafka = false }) | some e ↦ (err e, c) ]

  -- `async with collector: body`. `__aexit__` is called if `__aenter__` has returned, and lets the
  -- exception of the body go on, if it raises none itself.
  unfoldable pub with_collector : {A : Type 0} → M Connections A → M Connections A
  unfolding aenter aexit
  with_collector body c =
      let (entered, c1) = aenter c in
      let (r, c2) = body c1 in
      let (exited, c3) = aexit c2 in
      elim entered [
        | err e ↦ (err e, c1)
        | ok u ↦ elim exited [ err e ↦ (err e, c3) | ok v ↦ (r, c3) ]
      ]

-- The body leaves the connection to PostgreSQL alone; it may stop the Kafka client.
abbrev pub LeavesPostgres : {A : Type 0} → M Connections A → Type 0
LeavesPostgres body = (c : Connections) → (body c).1.postgres ≡ c.postgres

abbrev pub both_open : Connections
both_open = record { kafka = true; postgres = true }

-- What is left of the connections, by what the calls have come to; a client that cannot be stopped
-- is left as the body has left it.
abbrev pub left_open :
    (entered : Result (Unit {0})) (stopped : Bool) (db : Result (Unit {0})) (stop : Option Exc)
    → Bool
    → Connections
left_open (err e) stopped db stop kafka = record { kafka = not stopped; postgres = false }
left_open (ok u) stopped (err e) stop kafka = record { kafka = true; postgres = false }
left_open (ok u) stopped (ok v) none kafka = record { kafka = false; postgres = true }
left_open (ok u) stopped (ok v) (some e) kafka = record { kafka = kafka; postgres = true }

module _ (a : Answers) {A : Type 0} (body : M Connections A) (leaves : LeavesPostgres body) where
  left : Connections
  left = (with_collector a body (record { kafka = false; postgres = false })).1

  -- Where connecting to Kafka returns, the rest is by the database and by the last stop.
  left_by :
      (db : Result (Unit {0})) (stop : Option Exc)
      → (kafka_attempt a).outcome ≡ ok tt
      → (kafka_attempt a).stopped ≡ false
      → a.db ≡ db
      → a.stop ≡ stop
      → left ≡ left_open (ok tt) false db stop ((body both_open).1.kafka)
  unfolding left with_collector aenter aexit connect_kafka connect_db
  left_by (err x) stop e s h h' = ground (arith, e, s, h, h')
  left_by (ok u) none e s h h' = ground (arith, e, s, h, h', leaves both_open)
  left_by (ok u) (some x) e s h h' = ground (arith, e, s, h, h', leaves both_open)

  -- However the body of a collector's context ends, if it leaves the connection to PostgreSQL
  -- alone: when both connections were opened, that to PostgreSQL is still open at the end, and
  -- the Kafka client is stopped if stopping it succeeds, and else left as the body has left it;
  -- if only connecting to PostgreSQL raises, the Kafka client is left in use; and if connecting
  -- to Kafka raises, PostgreSQL is not opened, and the client is left in use unless connect has
  -- stopped it.
  pub with_collector-left_open :
      (with_collector a body (record { kafka = false; postgres = false })).1
      ≡ left_open
          ((kafka_attempt a).outcome)
          ((kafka_attempt a).stopped)
          a.db
          a.stop
          ((body both_open).1.kafka)
  unfolding left with_collector aenter aexit connect_kafka connect_db
  with_collector-left_open = elim (Result-cases ((kafka_attempt a).outcome)) [
    | inl (u, e) ↦
        let s = connect_ok a.start a.give_up u e in rw (e, s) (left_by a.db a.stop e s refl refl)
    | inr (x, e) ↦ ground (arith, e)
  ]
