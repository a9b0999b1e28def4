-- ===== src/Processor/Creation.antt =====
-- What `_handle_contract_creation` does.
use uzh_blockchain_data_coll.Base.{◌≡◌, refl, arith, false, list_eq, nat_eq}
use uzh_blockchain_data_coll.Errors.{ok}
use uzh_blockchain_data_coll.Model.{ContractCategory, is_erc, is_uniswap_pair}
use uzh_blockchain_data_coll.World.{World}
use uzh_blockchain_data_coll.Processor.State.{State}
use uzh_blockchain_data_coll.Processor.Handlers.{handle_contract_creation}

is_erc_none : (c : ContractCategory) → is_erc c ≡ false
unfolding is_erc
is_erc_none c = refl

is_uniswap_pair_none : (c : ContractCategory) → is_uniswap_pair c ≡ false
unfolding is_uniswap_pair
is_uniswap_pair_none c = refl

-- The creation of a contract of any category stores nothing.
pub handle_contract_creation_lem :
    (W : World) (contract : W.Contract) (c : ContractCategory) (s : State W.Float W.Contract)
    → handle_contract_creation W contract c s ≡ (ok tt, s)
unfolding handle_contract_creation
handle_contract_creation_lem W contract c s = ground (arith, is_erc_none c, is_uniswap_pair_none c)
