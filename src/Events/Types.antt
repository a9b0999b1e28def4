-- ===== src/Events/Types.antt =====
-- app/web3/transaction_events/types.py: `ContractEvent` and its subclasses.
use uzh_blockchain_data_coll.Base.{ℕ}
use uzh_blockchain_data_coll.Base.Text.{Str, str}

-- One constructor for each subclass, with the fields that it adds.
pub data EventBody : Type 0 where
  mint_fungible burn_fungible : ℕ → EventBody
  transfer_fungible : Str → Str → ℕ → EventBody
  pair_created : Str → Str → Str → EventBody
  mint_pair : Str → ℕ → ℕ → EventBody
  burn_pair : Str → Str → ℕ → ℕ → EventBody
  swap_pair : Str → Str → ℕ → ℕ → ℕ → ℕ → EventBody
  mint_non_fungible burn_non_fungible : ℕ → EventBody
  transfer_non_fungible : Str → Str → ℕ → EventBody

-- Every mapper gives the optional address.
pub record ContractEvent : Type 0 where
  pub address : Str
  pub log_index : ℕ
  pub body : EventBody

abbrev pub event : Str → ℕ → EventBody → ContractEvent
event a i b = record { address = a; log_index = i; body = b }

-- `type(event).__name__`
unfoldable pub event_name : EventBody → Str
event_name (mint_fungible v) = str "MintFungibleEvent"
event_name (burn_fungible v) = str "BurnFungibleEvent"
event_name (transfer_fungible s d v) = str "TransferFungibleEvent"
event_name (pair_created p a b) = str "PairCreatedEvent"
event_name (mint_pair s a b) = str "MintPairEvent"
event_name (burn_pair s d a b) = str "BurnPairEvent"
event_name (swap_pair s d a b c e) = str "SwapPairEvent"
event_name (mint_non_fungible t) = str "MintNonFungibleEvent"
event_name (burn_non_fungible t) = str "BurnNonFungibleEvent"
event_name (transfer_non_fungible s d t) = str "TransferNonFungibleEvent"
