-- ===== src/Events.antt =====
-- app/web3/transaction_events: the events that a receipt holds for a contract, by category.
pub mod Types
pub mod Balances
use uzh_blockchain_data_coll.Base.{
  ℕ, Bool, true, false, List, [], ◌∷◌, ◌++◌, ◌==◌, contains, list_eq, nat_eq, if◌then◌else◌, ◌≡◌,
  ap, append-nil,
}
use uzh_blockchain_data_coll.Base.Text.{Str, str}
use uzh_blockchain_data_coll.Model.{
  ContractCategory, unknown, erc20, erc721, erc1155, uni_swap_v2_factory, uni_swap_v2_pair,
}
use uzh_blockchain_data_coll.World.{
  World, EventLog, TransferArgs, NftTransferArgs, PairCreatedArgs, MintArgs, BurnArgs, SwapArgs,
}
use Types.{
  ContractEvent, event, mint_fungible, burn_fungible, transfer_fungible, pair_created, mint_pair,
  burn_pair, swap_pair, mint_non_fungible, burn_non_fungible, transfer_non_fungible,
}

-- `burn_addresses`, in lower case as the source writes them
abbrev pub burn_addresses : List Str
burn_addresses =
    str "0x0000000000000000000000000000000000000000"
    ∷ str "0x000000000000000000000000000000000000dead"
    ∷ []

-- The loop body of erc20.py, `_transfer`. (Its first `if` only passes.)
unfoldable pub transfer_events : EventLog TransferArgs → List ContractEvent
transfer_events l =
    let transfer =
      event l.address l.log_index (transfer_fungible l.args.src l.args.dst l.args.value) in
    if l.event == str "Transfer"
    then (if contains burn_addresses l.args.dst
        then event l.address l.log_index (burn_fungible l.args.value) ∷ transfer ∷ []
        else if contains burn_addresses l.args.src
        then event l.address l.log_index (mint_fungible l.args.value) ∷ transfer ∷ []
        else transfer ∷ [])
    else []

-- erc20.py, `_issue`
unfoldable pub issue_events : EventLog ℕ → List ContractEvent
issue_events l = event l.address l.log_index (mint_fungible l.args) ∷ []

-- erc20.py, `_redeem`
unfoldable pub redeem_events : EventLog ℕ → List ContractEvent
redeem_events l = event l.address l.log_index (burn_fungible l.args) ∷ []

-- The loop body of erc721.py, `_transfer`.
nft_transfer_events : EventLog NftTransferArgs → List ContractEvent
nft_transfer_events l =
    let transfer =
      event l.address l.log_index (transfer_non_fungible l.args.src l.args.dst l.args.token_id) in
    if l.event == str "Transfer"
    then (if contains burn_addresses l.args.dst
        then event l.address l.log_index (burn_non_fungible l.args.token_id) ∷ transfer ∷ []
        else if contains burn_addresses l.args.src
        then event l.address l.log_index (mint_non_fungible l.args.token_id) ∷ transfer ∷ []
        else transfer ∷ [])
    else []

-- uniswapv2_factory.py, `_pair_created`
pair_created_events : EventLog PairCreatedArgs → List ContractEvent
pair_created_events l =
    if l.event == str "PairCreated"
    then event l.address l.log_index (pair_created l.args.pair l.args.token0 l.args.token1) ∷ []
    else []

-- uniswap_pair.py, `_mint`
mint_events : EventLog MintArgs → List ContractEvent
mint_events l =
    event l.address l.log_index (mint_pair l.args.sender l.args.amount0 l.args.amount1) ∷ []

-- uniswap_pair.py, `_burn`
burn_events : EventLog BurnArgs → List ContractEvent
burn_events l =
    event l.address l.log_index (burn_pair l.args.sender l.args.to l.args.amount0 l.args.amount1)
    ∷ []

-- uniswap_pair.py, `_swap`
swap_events : EventLog SwapArgs → List ContractEvent
swap_events l =
    event l.address l.log_index (
      swap_pair l.args.sender l.args.to l.args.amount0_in l.args.amount1_in l.args.amount0_out
        l.args.amount1_out)
    ∷ []

-- `for eventLog in …: yield …`
unfoldable pub yield_all : {A : Type 0} → (A → List ContractEvent) → List A → List ContractEvent
yield_all f [] = []
yield_all f (l ∷ ls) = f l ++ yield_all f ls

module _ (W : World) where
  abbrev pub Mapper : Type 0
  Mapper = W.Contract → W.Receipt → List ContractEvent

  -- decorator.py: what the decorators have put into `__event_mappers` once the modules are loaded;
  -- a `defaultdict(list)` has no mapper for any other category.
  event_mappers : ContractCategory → List Mapper
  event_mappers erc20 =
      (λ c r. yield_all transfer_events (W.transfer_logs c r))
      ∷ (λ c r. yield_all issue_events (W.issue_logs c r))
      ∷ (λ c r. yield_all redeem_events (W.redeem_logs c r))
      ∷ []
  event_mappers erc721 = (λ c r. yield_all nft_transfer_events (W.nft_transfer_logs c r)) ∷ []
  event_mappers uni_swap_v2_factory =
      (λ c r. yield_all pair_created_events (W.pair_created_logs c r)) ∷ []
  event_mappers uni_swap_v2_pair =
      (λ c r. yield_all mint_events (W.mint_logs c r))
      ∷ (λ c r. yield_all burn_events (W.burn_logs c r))
      ∷ (λ c r. yield_all swap_events (W.swap_logs c r))
      ∷ []
  event_mappers unknown = []
  event_mappers erc1155 = []

  run_mappers : List Mapper → Mapper
  run_mappers [] contract receipt = []
  run_mappers (mapper ∷ mappers) contract receipt =
      mapper contract receipt ++ run_mappers mappers contract receipt

  unfoldable pub get_transaction_events : ContractCategory → Mapper
  unfolding event_mappers run_mappers yield_all transfer_events issue_events redeem_events
      nft_transfer_events pair_created_events mint_events burn_events swap_events
  get_transaction_events category = run_mappers (event_mappers category)

  -- The events of the category erc20.
  pub get_transaction_events-erc20 :
      (c : W.Contract) (r : W.Receipt)
      → get_transaction_events erc20 c r
        ≡ yield_all transfer_events (W.transfer_logs c r)
          ++ (yield_all issue_events (W.issue_logs c r)
              ++ yield_all redeem_events (W.redeem_logs c r))
  unfolding event_mappers run_mappers get_transaction_events
  get_transaction_events-erc20 c r =
      ap
        (λ es.
          yield_all transfer_events (W.transfer_logs c r)
          ++ (yield_all issue_events (W.issue_logs c r) ++ es))
        (append-nil (yield_all redeem_events (W.redeem_logs c r)))
