-- ===== src/Tests/Setting.antt =====
-- A node with two blocks and a broker with two partitions.
use uzh_blockchain_data_coll.Base.{
  ℕ, zero, suc, none, some, true, List, [], ◌∷◌, ◌*◌, refl, arith, false,
}
use uzh_blockchain_data_coll.Base.Int.{pos, ◌+ℤ◌}
use uzh_blockchain_data_coll.Base.Text.{Str, str}
use uzh_blockchain_data_coll.Errors.{Result, ok, err, block_not_found}
use uzh_blockchain_data_coll.Model.{erc20}
use uzh_blockchain_data_coll.Model.Rows.{
  BlockData, TransactionData, TransactionReceiptData, TransactionLogsData,
}
use uzh_blockchain_data_coll.World.{World}
use uzh_blockchain_data_coll.Parser.{config_cache, ConfigCache, ContractAbi, ContractConfig}
use uzh_blockchain_data_coll.Processor.State.{State}
use uzh_blockchain_data_coll.Db.Tables.{Db}
use uzh_blockchain_data_coll.Events.Types.{ContractEvent, event, mint_fungible, burn_fungible}
use uzh_blockchain_data_coll.Kafka.Partition.{IsSound}
use uzh_blockchain_data_coll.Redis.{get_n_transactions}
use uzh_blockchain_data_coll.Redis.Memory.{memory_set, memory_set-IsLawful}
use uzh_blockchain_data_coll.Kafka.{Broker, Manager}
use uzh_blockchain_data_coll.Kafka.Topic.{kafka_topic, kafka_topic-IsReliable}
use uzh_blockchain_data_coll.Producer.{Topic, IsReliable}

abbrev pub block_1 : BlockData
block_1 = record {
  block_number = 1;
  block_hash = str "0xb1";
  nonce = str "0x0";
  difficulty = 2;
  gas_limit = 30;
  gas_used = 20;
  timestamp = 100;
  transactions = str "0x11" ∷ str "0x12" ∷ [];
  miner = str "0xa1";
  parent_hash = str "0xb0";
  uncles = [];
}

abbrev pub block_2 : BlockData
block_2 = record block_1 {
  block_number = 2;
  block_hash = str "0xb2";
  transactions = str "0x21" ∷ [];
  parent_hash = str "0xb1";
}

abbrev pub block_at : ℕ → Result BlockData
block_at (suc zero) = ok block_1
block_at (suc (suc zero)) = ok block_2
block_at _ = err block_not_found

abbrev pub a_transaction : Str → TransactionData ℕ
a_transaction hash = record {
  transaction_hash = some hash;
  block_number = some 1;
  from_address = some (str "0xa1");
  to_address = some (str "0xc0");
  value = some 5;
  gas_price = some 3;
  gas_limit = some 30;
  input_data = none;
}

abbrev pub a_receipt : TransactionReceiptData ℕ
a_receipt = record {
  gas_used = some 20;
  logs = some [];
  transaction_type = none;
  contract_address = none;
}

abbrev pub small_world : World
small_world = record {
  Float = ℕ;
  mul = λ a b. a * b;
  fromhex = λ s. ok 1;
  Abi = Str;
  Contract = Str;
  Receipt = Unit {0};
  eth_contract = λ a abi. a;
  contract_address = λ c. c;
  transfer_logs = λ c r. [];
  issue_logs = λ c r. record { event = str "Issue"; address = c; log_index = 4; args = 70 } ∷ [];
  redeem_logs = λ c r. [];
  nft_transfer_logs = λ c r. [];
  pair_created_logs = λ c r. [];
  mint_logs = λ c r. [];
  burn_logs = λ c r. [];
  swap_logs = λ c r. [];
  call_text = λ c f. ok (some f);
  call_number = λ c f. ok (some 18);
  call_float = λ c f. ok (some 9);
  get_block = block_at;
  get_transaction = λ h. ok (a_transaction h);
  get_transaction_receipt = λ h. ok (a_receipt, tt);
  trace_block = λ i. ok (record { trace_type = str "reward"; action_value = str "0x0f" } ∷ []);
  trace_replay = λ h. ok [];
  visit = λ s. s;
}

abbrev pub no_rows : Db ℕ
no_rows = record {
  block = [];
  transaction = [];
  internal_transaction = [];
  transaction_logs = [];
  nft_transfer = [];
  contract = [];
  token_contract = [];
  contract_supply_change = [];
  pair_contract = [];
  pair_liquidity_change = [];
}

abbrev pub small_broker : Broker
small_broker = record {
  accepts = λ held msg. true;
  deliver = λ k batch. ok (some k);
  deliver_message = λ msg. ok (some 0);
  partitions = λ i. 2;
}

abbrev pub fresh_manager : Manager memory_set
fresh_manager = record { i_partition = some 0; redis = []; sent = []; n_sent = 0 }

pub fresh_manager-IsSound : IsSound memory_set small_broker 2 (pos 0) fresh_manager
unfolding get_n_transactions ◌+ℤ◌
fresh_manager-IsSound = record { next = omega arith; members = tt; targets = tt; counted = refl }

abbrev pub small_topic : Topic
small_topic = kafka_topic memory_set small_broker

abbrev pub small_topic-IsReliable : IsReliable small_topic
small_topic-IsReliable =
    kafka_topic-IsReliable memory_set small_broker 2 (pos 0) memory_set-IsLawful (omega arith)
      (λ i. refl) (λ k batch. refl) (λ held msg. refl)

abbrev pub a_config : ContractConfig
a_config = record {
  address = str "0xC0";
  symbol = str "TOK";
  category = erc20;
  events = str "MintFungibleEvent" ∷ str "BurnFungibleEvent" ∷ [];
}

abbrev pub small_abi : ContractAbi Str
small_abi = record {
  erc20_abi = str "20";
  erc721_abi = str "721";
  erc1155_abi = str "1155";
  factory_abi = str "factory";
  pair_abi = str "pair";
}

-- Two events of the configured contract and one of another.
abbrev pub some_events : List ContractEvent
some_events =
    event (str "0xC0") 1 (mint_fungible 50)
    ∷ event (str "0xDD") 2 (mint_fungible 8)
    ∷ event (str "0xC0") 3 (burn_fungible 20)
    ∷ []

abbrev pub small_cache : ConfigCache
small_cache = config_cache (a_config ∷ [])

abbrev pub no_state : State ℕ Str
no_state = record { db = no_rows; contracts = [] }

abbrev pub a_log : TransactionLogsData
a_log = record {
  address = some (str "0xC0");
  log_data = none;
  removed = some false;
  topics = some [];
  log_index = some 4;
  transaction_hash = some (str "0x11");
}

abbrev pub logged_receipt : TransactionReceiptData ℕ
logged_receipt = record a_receipt { logs = some (a_log ∷ []) }
