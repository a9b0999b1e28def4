-- ===== src/Node.antt =====
-- app/web3/node_connector.py: the RPC methods that web3 has no function for, and the retries.
pub mod Retry
pub mod Requests
pub mod Connector
use uzh_blockchain_data_coll.Base.{
  ℕ, ◌+◌, ◌*◌, ◌-◌, leb, Option, none, some, Bool, true, false, List, [], ◌∷◌, ◌&&◌, ◌==◌, list_eq,
  nat_eq, if◌then◌else◌,
}
use uzh_blockchain_data_coll.Base.Dict.{lookup, insert}
use uzh_blockchain_data_coll.Base.Text.{Str, str}
use uzh_blockchain_data_coll.Errors.{Result, ok, err, type_error, value_error}
use uzh_blockchain_data_coll.Model.Rows.{InternalTransactionData}
use uzh_blockchain_data_coll.World.{World, Json, BlockTrace, TraceEntry}

-- The value of a hexadecimal digit.
hex_digit : ℕ → Option ℕ
hex_digit c =
    if leb b'0' c && leb c b'9'
    then some (c - 48)
    else if leb b'a' c && leb c b'f'
    then some (c - 87)
    else if leb b'A' c && leb c b'F'
    then some (c - 55)
    else none

hex_digits : Str → ℕ → Result ℕ
hex_digits [] acc = ok acc
hex_digits (c ∷ s) acc = elim (hex_digit c) [
  | none ↦ err value_error
  | some d ↦ hex_digits s (16 * acc + d)
]

-- `int(text, 16)`, of hexadecimal digits with or without the prefix 0x. The other spellings that
-- Python takes (signs, blanks, underscores) do not occur in RPC answers and are refused here.
unfoldable pub int_16 : Str → Result ℕ
unfolding hex_digits hex_digit
int_16 [] = err value_error
int_16 (c ∷ []) = hex_digits (c ∷ []) 0
int_16 (c ∷ d ∷ []) = hex_digits (c ∷ d ∷ []) 0
int_16 (c ∷ d ∷ e ∷ s) =
    let plain = hex_digits (c ∷ d ∷ e ∷ s) 0 in
    let prefixed = hex_digits (e ∷ s) 0 in
    if c == b'0' && (d == b'x')
    then prefixed
    else if c == b'0' && (d == b'X')
    then prefixed
    else plain

-- The loop with `break` in `get_block_reward`; `none` is the initial number 0.
unfoldable pub first_reward : List BlockTrace → Option Str
first_reward [] = none
first_reward (i ∷ is) =
    let rest = first_reward is in if i.trace_type == str "reward" then some i.action_value else rest

-- `int(blockReward, 16)`: an explicit base with the number 0 is a `TypeError`.
unfoldable pub parse_reward : Option Str → Result ℕ
unfolding int_16
parse_reward none = err type_error
parse_reward (some s) = int_16 s

-- `d | e` of two dicts
unfoldable pub merge : Json → Json → Json
merge d [] = d
merge d ((k, v) ∷ e) = merge (insert k v d) e

-- The body of the loop: an empty `result` is falsy.
unfoldable pub entry_data : TraceEntry → Json
unfolding merge
entry_data i = elim i.result [
  | none ↦ i.action
  | some [] ↦ i.action
  | some (x ∷ xs) ↦ merge i.action (x ∷ xs)
]

module _ (W : World) where
  unfoldable pub get_block_reward : ℕ → Result ℕ
  unfolding first_reward parse_reward
  get_block_reward block_id = elim (W.trace_block block_id) [
    | err e ↦ err e
    | ok traces ↦ parse_reward (first_reward traces)
  ]

  -- The validator `strings_to_float` on a field that may be missing.
  optional_float : Option Str → Result (Option W.Float)
  optional_float none = ok none
  optional_float (some s) = elim (W.fromhex s) [ err e ↦ err value_error | ok f ↦ ok (some f) ]

  -- `InternalTransactionData(**data)`
  unfoldable pub internal_of : Json → Result (InternalTransactionData W.Float)
  unfolding optional_float
  internal_of d = elim (optional_float (lookup (str "value") d)) [
    | err e ↦ err e
    | ok value ↦ elim (optional_float (lookup (str "gasUsed") d)) [
      | err e ↦ err e
      | ok gas_used ↦ elim (optional_float (lookup (str "gas") d)) [
        | err e ↦ err e
        | ok gas_limit ↦ ok (record {
          from_address = lookup (str "from") d;
          to_address = lookup (str "to") d;
          value = value;
          gas_used = gas_used;
          gas_limit = gas_limit;
          input_data = lookup (str "input") d;
          call_type = lookup (str "callType") d;
        })
      ]
    ]
  ]

  unfoldable pub internal_of_all : List TraceEntry → Result (List (InternalTransactionData W.Float))
  unfolding internal_of entry_data
  internal_of_all [] = ok []
  internal_of_all (i ∷ is) = elim (internal_of (entry_data i)) [
    | err e ↦ err e
    | ok x ↦ elim (internal_of_all is) [ err e ↦ err e | ok xs ↦ ok (x ∷ xs) ]
  ]

  unfoldable pub get_internal_transactions :
      Option Str → Result (List (InternalTransactionData W.Float))
  unfolding internal_of_all
  get_internal_transactions tx_hash = elim (W.trace_replay tx_hash) [
    | err e ↦ err e
    | ok trace ↦ internal_of_all trace
  ]
