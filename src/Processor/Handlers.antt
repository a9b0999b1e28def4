-- ===== src/Processor/Handlers.antt =====
-- `TransactionProcessor`: the handlers that the processors share.
use uzh_blockchain_data_coll.Base.{
  ℕ, Option, none, some, Bool, true, false, List, [], ◌∷◌, ◌++◌, ◌||◌, not, keep, ◌==◌, contains,
  list_eq, nat_eq, option_eq, if◌then◌else◌,
}
use uzh_blockchain_data_coll.Base.Int.{ℤ, pos, ◌+ℤ◌, ◌-ℤ◌, int_eq}
use uzh_blockchain_data_coll.Base.Text.{Str}
use uzh_blockchain_data_coll.Errors.{
  M, Result, ok, err, ◌>>=◌, ◌>>◌, pure, raise, lift, when, for_each, in_transaction, type_error,
}
use uzh_blockchain_data_coll.Model.{ContractCategory, is_erc, is_uniswap_pair}
use uzh_blockchain_data_coll.Model.Rows.{
  TransactionData, TransactionReceiptData, TransactionLogsData, InternalTransactionData,
  TokenContractData, PairContractData,
}
use uzh_blockchain_data_coll.World.{World}
use uzh_blockchain_data_coll.Node.{get_internal_transactions}
use uzh_blockchain_data_coll.Db.Tables.{Db, LogRow, InternalRow}
use uzh_blockchain_data_coll.Db.{
  insert_transaction, insert_transaction_logs, insert_internal_transaction, insert_nft_transfer,
  insert_token_contract, insert_contract_supply_change, insert_pair_liquidity_change,
}
use uzh_blockchain_data_coll.Events.{get_transaction_events}
use uzh_blockchain_data_coll.Events.Types.{
  ContractEvent, EventBody, mint_fungible, burn_fungible, mint_pair, burn_pair, swap_pair,
  transfer_non_fungible, event_name,
}
use uzh_blockchain_data_coll.Parser.{
  ConfigCache, get_contract_events, get_token_contract_data, get_pair_contract_data,
}
use uzh_blockchain_data_coll.Processor.State.{State, on_db}

-- The variables of the loop in `_handle_transaction_events`; `last` is the loop variable `event`,
-- which keeps its value after the loop.
pub record Tally : Type 0 where
  pub log_indices : List (Option ℕ)
  pub amount_changed : ℤ
  pub amount0_changed : ℤ
  pub amount1_changed : ℤ
  pub last : Option ContractEvent

abbrev pub no_tally : Tally
no_tally = record {
  log_indices = [];
  amount_changed = pos 0;
  amount0_changed = pos 0;
  amount1_changed = pos 0;
  last = none;
}

-- The `isinstance` chain, as far as it changes the loop's variables.
unfoldable pub count_event : EventBody → Tally → Tally
count_event (burn_fungible v) t = record t { amount_changed = t.amount_changed -ℤ pos v }
count_event (mint_fungible v) t = record t { amount_changed = t.amount_changed +ℤ pos v }
count_event (mint_pair s a b) t = record t {
  amount0_changed = t.amount0_changed +ℤ pos a;
  amount1_changed = t.amount1_changed +ℤ pos b;
}
count_event (burn_pair s d a b) t = record t {
  amount0_changed = t.amount0_changed -ℤ pos a;
  amount1_changed = t.amount1_changed -ℤ pos b;
}
count_event (swap_pair s d in0 in1 out0 out1) t = record t {
  amount0_changed = t.amount0_changed +ℤ pos in0 -ℤ pos out0;
  amount1_changed = t.amount1_changed +ℤ pos in1 -ℤ pos out1;
}
count_event _ t = t

module _ {F : Type 0} where
  -- The branch of the chain that writes: an NFT transfer.
  unfoldable pub store_event : Option Str → ContractEvent → EventBody → M (Db F) (Unit {0})
  store_event tx_hash e (transfer_non_fungible src dst token_id) = insert_nft_transfer (record {
    transaction_hash = tx_hash;
    log_index = e.log_index;
    address = e.address;
    from_address = src;
    to_address = dst;
    token_id = token_id;
  })
  store_event tx_hash e _ = pure tt

-- `type(event).__name__ in allowed_events and event.address == contract.address`; `in None`
-- raises a `TypeError`.
unfoldable pub is_relevant : Option (List Str) → Str → ContractEvent → Result Bool
unfolding event_name
is_relevant none a e = err type_error
is_relevant (some allowed) a e =
    ok (if contains allowed (event_name e.body) then e.address == a else false)

module _ {F : Type 0} where
  -- The loop body.
  unfoldable pub handle_event :
      Option (List Str) → Str → Option Str → ContractEvent → Tally → M (Db F) Tally
  handle_event allowed a tx_hash e t = do
    let t' = record t { last = some e }
    relevant ← lift (is_relevant allowed a e)
    elim relevant [
      | true ↦
          store_event tx_hash e e.body
          >> pure (
              count_event e.body
                (record t' { log_indices = t'.log_indices ++ (some e.log_index ∷ []) }))
      | false ↦ pure t'
    ]

  unfoldable pub event_loop :
      Option (List Str) → Str → Option Str → List ContractEvent → Tally → M (Db F) Tally
  event_loop allowed a tx_hash [] t = pure t
  event_loop allowed a tx_hash (e ∷ es) t = do
    t' ← handle_event allowed a tx_hash e t
    event_loop allowed a tx_hash es t'

  -- `if amount_changed != 0`: the row is written at the address of the loop variable. The sum is
  -- 0 if there was no event, so the variable is bound whenever it is read.
  unfoldable pub store_supply : Option Str → Tally → Option ContractEvent → M (Db F) (Unit {0})
  store_supply tx_hash t none = pure tt
  store_supply tx_hash t (some e) = when (not (t.amount_changed == pos 0)) (
      insert_contract_supply_change (record {
        address = e.address;
        amount_changed = t.amount_changed;
        transaction_hash = tx_hash;
      }))

  unfoldable pub store_liquidity : Str → Option Str → Tally → M (Db F) (Unit {0})
  store_liquidity a tx_hash t =
      when (not (t.amount0_changed == pos 0) || not (t.amount1_changed == pos 0)) (
        insert_pair_liquidity_change (record {
          address = a;
          amount0 = t.amount0_changed;
          amount1 = t.amount1_changed;
          transaction_hash = tx_hash;
        }))

  -- `_handle_transaction_events` after its first line, over the events of the receipt
  unfoldable pub handle_events :
      Option (List Str) → Str → Option Str → List ContractEvent → M (Db F) (List (Option ℕ))
  handle_events allowed a tx_hash es = do
    t ← event_loop allowed a tx_hash es no_tally
    store_supply tx_hash t t.last
    store_liquidity a tx_hash t
    pure t.log_indices

-- `a * b` of two optional floats
unfoldable pub product : {F : Type 0} → (F → F → F) → Option F → Option F → Result F
product mul (some a) (some b) = ok (mul a b)
product mul _ _ = err type_error

-- `for x in xs` of an optional list
unfoldable pub items : {A : Type 0} → Option (List A) → Result (List A)
items none = err type_error
items (some xs) = ok xs

abbrev pub log_row : TransactionLogsData → LogRow
log_row l = record {
  transaction_hash = l.transaction_hash;
  address = l.address;
  log_index = l.log_index;
  log_data = l.log_data;
  removed = l.removed;
  topics = l.topics;
}

abbrev pub internal_row : {F : Type 0} → Option Str → InternalTransactionData F → InternalRow F
internal_row tx_hash i = record {
  transaction_hash = tx_hash;
  from_address = i.from_address;
  to_address = i.to_address;
  value = i.value;
  gas_limit = i.gas_limit;
  gas_used = i.gas_used;
  input_data = i.input_data;
  call_type = i.call_type;
}

module _ (W : World) where
  abbrev pub Action : Type 0 → Type 0
  Action A = M (State W.Float W.Contract) A

  -- `insert_contract(address=…, transaction_hash=…)` lacks the argument `is_pair_contract`, which
  -- has no default: the call raises a `TypeError` before any statement is sent.
  insert_contract_call : Action (Unit {0})
  insert_contract_call = raise type_error

  -- `insert_pair_contract(**pair_contract_data.dict())` passes `token0` and `token1` where the
  -- method has `token0_address` and `token1_address`.
  insert_pair_contract_call : Action (Unit {0})
  insert_pair_contract_call = raise type_error

  unfoldable pub store_token : Option (TokenContractData W.Float) → Action (Unit {0})
  unfolding insert_contract_call
  store_token none = pure tt
  store_token (some t) = in_transaction (
      insert_contract_call
      >> on_db (
          insert_token_contract (record {
            address = t.address;
            symbol = t.symbol;
            name = t.name;
            decimals = t.decimals;
            total_supply = t.total_supply;
            token_category = t.token_category;
          })))

  unfoldable pub store_pair : Option PairContractData → Action (Unit {0})
  unfolding insert_contract_call insert_pair_contract_call
  store_pair none = pure tt
  store_pair (some p) = in_transaction (insert_contract_call >> insert_pair_contract_call)

  -- `_handle_contract_creation`
  unfoldable pub handle_contract_creation : W.Contract → ContractCategory → Action (Unit {0})
  handle_contract_creation contract category =
      if is_erc category
      then (lift (get_token_contract_data W contract category) >>= store_token)
      else if is_uniswap_pair category
      then (lift (get_pair_contract_data W contract category) >>= store_pair)
      else pure tt

  -- `_handle_transaction_events`
  unfoldable pub handle_transaction_events :
      ConfigCache
      → W.Contract
      → ContractCategory
      → TransactionData W.Float
      → W.Receipt
      → Action (List (Option ℕ))
  handle_transaction_events cache contract category tx receipt = do
    allowed ← lift (get_contract_events cache (some (W.contract_address contract)))
    on_db (
        handle_events allowed (W.contract_address contract) tx.transaction_hash
          (get_transaction_events W category contract receipt))

  -- `_handle_transaction`
  unfoldable pub handle_transaction :
      TransactionData W.Float
      → TransactionReceiptData W.Float
      → List (Option ℕ)
      → M (Db W.Float) (Unit {0})
  unfolding product items
  handle_transaction tx receipt log_indices = do
    fee ← lift (product W.mul tx.gas_price receipt.gas_used)
    insert_transaction (record {
      transaction_hash = tx.transaction_hash;
      block_number = tx.block_number;
      from_address = tx.from_address;
      to_address = tx.to_address;
      value = tx.value;
      transaction_fee = some fee;
      gas_price = tx.gas_price;
      gas_limit = tx.gas_limit;
      gas_used = receipt.gas_used;
      is_token_tx = true;
      input_data = tx.input_data;
    })
    logs ← lift (items receipt.logs)
    in_transaction (
        for_each (λ l. insert_transaction_logs (log_row l))
          (keep (λ l. contains log_indices l.log_index) logs))
    internal ← lift (get_internal_transactions W tx.transaction_hash)
    in_transaction
        (for_each (λ i. insert_internal_transaction (internal_row tx.transaction_hash i)) internal)
