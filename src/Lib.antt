-- ===== src/Lib.antt =====
-- Verification library of the EVM blockchain data collector.
--
-- A producer (producer.py) goes through the blocks of a node, writes each block to the database
-- and sends the hashes of its transactions to a Kafka topic, tagged with the collection mode.
-- Consumers (consumer/) read the hashes, fetch each transaction with its receipt from the node and
-- store it, its logs, its events and its internal transactions. Redis counts the messages that wait
-- in each partition, by which the producer limits the topic and chooses its partitions. The paths
-- below are relative to src/data_collection/app.
--
-- Base        shared names, equality, lists, integers, texts (lists of character codes), dicts
-- Errors      exceptions as values, state with exceptions (`M`)
-- Model       model/: the enumerations; Model/Rows the pydantic models as records, Model/Hexbytes
--             the validator transform_hexbytes
-- World       what is called and not implemented here: floats, web3, the node, set iteration
-- Collector   utils/data_collector.py: encode_kafka_event, decode_kafka_event; Collector/Codec,
--             Collector/Context the async context manager
-- Db          db/manager.py: every insert and get_block over the tables of src/db/sql, as lists of
--             rows (Db/Tables); Db/Table has the kinds of INSERT, Db/Unique what the conflict clause
--             does, Db/Lookup and Db/Reading what is read
-- Redis       db/redis.py over a sorted set as an interface; Redis/Memory implements it
-- Kafka       kafka/manager.py, the producer's side: Kafka/Connect (connect), Kafka/Capacity
--             (limit_topic_capacity), Kafka/Chunks and Kafka/Partition (send_batch), Kafka/Topic (the
--             manager as the topic of a producer)
-- Node        web3/node_connector.py: rewards and internal transactions; Node/Retry the middleware,
--             Node/Requests the requests behind it, Node/Connector the connector as a whole
-- Parser      web3/parser.py: the configured contracts and their look-up
-- Explorer    web3/block_explorer.py: get_exploration_bounds
-- Events      web3/transaction_events: the event mappers by category; Events/Balances what transfers do
--             to the balances of a token's holders
-- Processor   consumer/tx_processor.py: Processor/Handlers the methods of TransactionProcessor,
--             Processor/Modes the processors of the modes; the other files have proofs
-- Producer    producer.py: _start_producer with its loop, the mode dispatch, the exit code
-- Consumer    consumer/__init__.py, and the listening loop of KafkaConsumerManager
--             Consumer/Timeout its two tasks with their asyncio events, as a step relation, with
--             Consumer/Timeout/Silent and Consumer/Timeout/Turns; Consumer/Contracts the set of all
--             contracts, Consumer/Ends the end of a run
-- Config      config.py: the validators; Config/EventNames and Config/Accepted what they accept
-- Main        main.py and utils/enum_action.py: the worker type and the exit code
-- Flow        the producer and consumer tasks over one topic, interleaved: Flow/Tasks the steps of a
--             task from one await to the next, Flow/System the steps of all and the reachable states;
--             Flow/Count and Flow/Bounds are about these, with helpers in Flow/Family and Flow/Allowed
-- Pipeline    whole runs: Pipeline/EndToEnd a producer and then a consumer, with Pipeline/Received the
--             messages in any order, Pipeline/Consumed the consumer's part, Pipeline/Logs and
--             Pipeline/Internal the tables of logs and of internal transactions; Pipeline/Retries
--             runs over a node that fails now and then
-- Query       etc/query_tool.py over the tables of Db, the command supply, with Query/Join,
--             Query/Conditions, Query/Order and Query/Supply; Query/Plot the command plot_others,
--             Query/Overview the command plot_overview, Query/Command the choice of the command
-- Pairs       etc/get_top_uniswap_pairs.py: the contracts that it prints
-- Benchmark   etc/web3_method_benchmark.py: the requests that it sends; Benchmark/Ends how a run ends.
--             (etc/ is at the repository's root.)
-- Tests       concrete inputs
--
-- State and errors. A method that writes is a function of type `M S A`: it takes the state and
-- gives a result or an exception with the state that is left. A database transaction that raises
-- gives back the state it began with. Web3, the broker and Redis are parameters; the laws that
-- Redis documents for ZINCRBY are the record `IsLawful`, and what a producer relies on in its
-- topic is the record `IsReliable`, which Kafka/Topic fills with the manager's theorems.
--
-- Fuel. The loop of _start_producer has fuel: with an end block e, e + 2 rounds are enough, and
-- without one two, whatever the node answers, if the calls of send_batch end. The loop of limit_topic_capacity has fuel too,
-- since it can go on for ever; enough fuel is given where a later reading has space. Splitting
-- into chunks has the length of the list as fuel. `connect` and the retry middleware count down.
--
-- One task after the other. In Pipeline/EndToEnd the consumer begins when the producer has ended; what
-- it receives is a permutation of the topic's messages, since partitions are read in any order.
--
-- Interleaving. Flow takes every await as a point where another task may go on. The partition that
-- the broker reports is left open there, which allows more runs than the code has; the number of
-- partitions is fixed, and a call of send_batch has a largest number of messages, the most
-- transactions of a block. Consumer/Timeout counts seconds; between the end of the time-out and the
-- exception of wait_for any steps of the other task are allowed.
--
-- Not modelled: logging, Sentry, and the arguments of the command line but the worker type, which
-- only call libraries; timestamps and pydantic's own conversions of web3's values, which belong to
-- the parameter for the node; negative block numbers for a producer, which the configuration
-- accepts (Config has them). In Consumer the two asyncio events are left out: of them the model
-- keeps that a run ends with KafkaConsumerPartitionsEmptyError behind the last event that arrives
-- in time, and Consumer/Timeout is about the events themselves. `send_batch` and `send_message` are
-- the wrapped methods; the wait before them is `wait_for_space`, and Flow has both together. A set
-- of log indices is a list, in the order of the first additions, of which only membership and
-- emptiness are used. Of the scripts in etc/ the drawing, the help texts and the times that the
-- benchmark measures are left out.
pub mod Base
pub mod Errors
pub mod Model
pub mod Collector
pub mod Db
pub mod World
pub mod Events
pub mod Parser
pub mod Node
pub mod Processor
pub mod Redis
pub mod Kafka
pub mod Explorer
pub mod Producer
pub mod Config
pub mod Consumer
pub mod Pipeline
pub mod Flow
pub mod Query
pub mod Pairs
pub mod Benchmark
pub mod Main
pub mod Tests
