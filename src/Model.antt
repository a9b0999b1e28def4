-- ===== src/Model.antt =====
-- The enumerations of app/model: the collection mode and the contract category.
pub mod Rows
pub mod Hexbytes
use uzh_blockchain_data_coll.Base.{
  Option, none, some, Bool, false, ◌||◌, ◌==◌, list_eq, nat_eq, if◌then◌else◌,
}
use uzh_blockchain_data_coll.Base.Text.{Str, str}
use uzh_blockchain_data_coll.Errors.{Result, ok, err, value_error}

-- app/model/__init__.py, `DataCollectionMode`
pub data Mode : Type 0 where
  full partial log_filter get_logs : Mode

-- `mode.value`: `auto()` in a `StrEnum` is the lower-cased member name.
unfoldable pub mode_value : Mode → Str
mode_value full = str "full"
mode_value partial = str "partial"
mode_value log_filter = str "log_filter"
mode_value get_logs = str "get_logs"

-- `DataCollectionMode(s)`: the member with that value, or a `ValueError`.
unfoldable pub mode_of : Str → Result Mode
unfolding mode_value
mode_of s =
    if s == mode_value full
    then ok full
    else if s == mode_value partial
    then ok partial
    else if s == mode_value log_filter
    then ok log_filter
    else if s == mode_value get_logs
    then ok get_logs
    else err value_error

-- app/model/__init__.py, `DataCollectionWorkerType`
pub data WorkerType : Type 0 where
  producer consumer : WorkerType

-- app/model/contract.py, `ContractCategory`
pub data ContractCategory : Type 0 where
  unknown erc20 erc721 erc1155 uni_swap_v2_factory uni_swap_v2_pair : ContractCategory

unfoldable pub category_value : ContractCategory → Str
category_value unknown = str "unknown"
category_value erc20 = str "erc20"
category_value erc721 = str "erc721"
category_value erc1155 = str "erc1155"
category_value uni_swap_v2_factory = str "UniSwapV2Factory"
category_value uni_swap_v2_pair = str "UniSwapV2Pair"

-- The two kinds of operand that `is_erc` and `is_uniswap_pair` compare.
pub data EnumOperand : Type 0 where
  text : Str → EnumOperand
  member : ContractCategory → EnumOperand

-- Python's `==` there: `ContractCategory` is a plain `Enum`, not a `StrEnum`, so its members
-- are compared by identity and are equal to no string.
operand_eq : EnumOperand → EnumOperand → Bool
unfolding category_value
operand_eq (text s) (text t) = s == t
operand_eq (member c) (member d) = category_value c == category_value d
operand_eq _ _ = false

-- `self.value in [self.ERC20, self.ERC721, self.ERC1155]`
unfoldable pub is_erc : ContractCategory → Bool
unfolding operand_eq category_value
is_erc c =
    operand_eq (text (category_value c)) (member erc20)
    || (operand_eq (text (category_value c)) (member erc721)
        || operand_eq (text (category_value c)) (member erc1155))

-- `self.value == self.UNI_SWAP_V2_PAIR`
unfoldable pub is_uniswap_pair : ContractCategory → Bool
unfolding operand_eq category_value
is_uniswap_pair c = operand_eq (text (category_value c)) (member uni_swap_v2_pair)
