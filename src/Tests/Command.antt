-- ===== src/Tests/Command.antt =====
-- The configuration, the workers and the query tool on concrete inputs.
use uzh_blockchain_data_coll.Base.{
  ℕ, none, some, true, [], ◌∷◌, ◌≡◌, ◌↔◌, refl, list_eq, nat_eq, In, inl, inr, length, List,
}
use uzh_blockchain_data_coll.Base.Int.{pos, int_eq}
use uzh_blockchain_data_coll.Base.Text.{Str, str, lower}
use uzh_blockchain_data_coll.Errors.{ok, err, partitions_empty}
use uzh_blockchain_data_coll.Model.{consumer, partial, erc20, category_value}
use uzh_blockchain_data_coll.Db.Tables.{Db, BlockRow, TransactionRow}
use uzh_blockchain_data_coll.Parser.{ContractConfig, find_config, config_cache}
use uzh_blockchain_data_coll.Consumer.Contracts.{contract_eq, all_contracts}
use uzh_blockchain_data_coll.Consumer.Contracts.Union.{IsConfigured}
use uzh_blockchain_data_coll.Consumer.Contracts.Found.{find_config-all_contracts}
use uzh_blockchain_data_coll.Config.{DataCollectionConfig}
use uzh_blockchain_data_coll.Main.{start}
use uzh_blockchain_data_coll.Main.ExitCode.{AllEnded, start_zero}
use uzh_blockchain_data_coll.Query.{Args, Change, supply_changes}
use uzh_blockchain_data_coll.Query.Order.{IsSorted}
use uzh_blockchain_data_coll.Query.Supply.{HasChange, supply_changes-HasChange}

abbrev partial_config : DataCollectionConfig ℕ
partial_config = record {
  mode = partial;
  start_block = some (pos 1);
  end_block = some (pos 5);
  contracts = some (
      record {
        address = str "0xc0";
        symbol = str "USDT";
        category = erc20;
        events = str "MintFungibleEvent" ∷ [];
      }
      ∷ []);
  topics = none;
  params = none;
}

abbrev usdt : ContractConfig
usdt = record {
  address = str "0xC0";
  symbol = str "USDT";
  category = erc20;
  events = str "MintFungibleEvent" ∷ str "BurnFungibleEvent" ∷ [];
}

-- The same contract in two configurations, the second with its events in another order.
abbrev usdt_again : ContractConfig
usdt_again = record usdt { events = str "BurnFungibleEvent" ∷ str "MintFungibleEvent" ∷ [] }

abbrev twice : List (DataCollectionConfig ℕ)
twice =
    record partial_config { contracts = some (usdt ∷ []) }
    ∷ record partial_config { contracts = some (usdt_again ∷ []) }
    ∷ []

only_usdt :
    (d : ContractConfig)
    → IsConfigured d twice
    → lower (str "0xC0") ≡ lower d.address
    → contract_eq usdt d ≡ true
unfolding contract_eq list_eq nat_eq category_value
only_usdt d (inl (inl e)) same = rw e refl
only_usdt d (inr (inl (inl e))) same = rw e refl
only_usdt d (inl (inr no_more)) same = absurd no_more
only_usdt d (inr (inl (inr no_more))) same = absurd no_more
only_usdt d (inr (inr no_more)) same = absurd no_more

find_config-all_contracts_example :
    (d : ContractConfig) × (find_config
        (config_cache (all_contracts length (λ s. s) twice []))
        (some (str "0xC0"))
      ≡ ok (some d))
    × (contract_eq usdt d ≡ true)
find_config-all_contracts_example =
    find_config-all_contracts length (λ s. s) (λ set. set) twice usdt
      (λ d set. ((λ m. m), (λ m. m))) only_usdt (inl (inl refl))

start_zero_example :
    start consumer (ok tt) (ok (err partitions_empty) ∷ []) (ok []) ≡ ok 0
    ↔ AllEnded consumer (ok tt) (ok (err partitions_empty) ∷ []) (ok [])
start_zero_example = start_zero consumer (ok tt) (ok (err partitions_empty) ∷ []) (ok [])

abbrev block_row_at : ℕ → ℕ → BlockRow
block_row_at n timestamp = record {
  block_number = n;
  block_hash = str "0xb1";
  nonce = str "0x0";
  difficulty = 2;
  gas_limit = 30;
  gas_used = 20;
  timestamp = timestamp;
  miner = str "0xa1";
  parent_hash = str "0xb0";
  block_reward = 0;
  uncles = [];
}

abbrev transaction_in : Str → ℕ → TransactionRow ℕ
transaction_in hash n = record {
  transaction_hash = some hash;
  block_number = some n;
  from_address = none;
  to_address = none;
  value = none;
  transaction_fee = none;
  gas_price = none;
  gas_limit = none;
  gas_used = none;
  is_token_tx = true;
  input_data = none;
}

-- Two supply changes of one contract, in two blocks.
abbrev two_changes : Db ℕ
two_changes = record {
  block = block_row_at 1 100 ∷ block_row_at 2 90 ∷ [];
  transaction = transaction_in (str "0x11") 1 ∷ transaction_in (str "0x21") 2 ∷ [];
  internal_transaction = [];
  transaction_logs = [];
  nft_transfer = [];
  contract = [];
  token_contract = [];
  contract_supply_change =
      record { address = str "0xc0"; amount_changed = pos 7; transaction_hash = some (str "0x11") }
      ∷ record {
        address = str "0xc0";
        amount_changed = pos 3;
        transaction_hash = some (str "0x21");
      }
      ∷ [];
  pair_contract = [];
  pair_liquidity_change = [];
}

abbrev all_blocks : Args
all_blocks = record { address = str "0xc0"; start_block = pos 0; end_block = none }

abbrev earlier : Change
earlier = record { amount_changed = pos 3; timestamp = 90 }

supply_changes_run :
    supply_changes all_blocks two_changes
    ≡ earlier ∷ record { amount_changed = pos 7; timestamp = 100 } ∷ []
unfolding supply_changes list_eq nat_eq int_eq
supply_changes_run = refl

supply_changes-HasChange_example :
    (In earlier (supply_changes all_blocks two_changes) ↔ HasChange all_blocks two_changes earlier)
    × IsSorted (supply_changes all_blocks two_changes)
supply_changes-HasChange_example = supply_changes-HasChange all_blocks two_changes earlier
