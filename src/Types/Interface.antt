-- ===== src/Types/Interface.antt =====
-- What the contracts read and build of cosmwasm_std, cw20 and the staking messages, and the
-- interface to the code that is not in the repository: queries, address validation, ratio
-- arithmetic and SHA-256. `IsCosmwasm` states what their documentation says of them.
use joe_liquid_staking.Prelude.{
  ℕ, ◌*◌, ◌/◌, ◌^◌, ◌≡◌, Bool, String, Option, List, [], ◌∷◌, Result, err, fit, u128_mod, panic,
  ◌==◌, if◌then◌else◌,
}
use Prim.Native.String.{count}
use joe_liquid_staking.Types.Hub.{Coin, ExecuteMsg}

-- The protobuf messages that `proto_encode` wraps.
pub data Proto : Type 0 where
  msg_delegate msg_undelegate : String → String → Coin → Proto
  msg_begin_redelegate : String → String → String → Coin → Proto
  msg_withdraw_delegator_reward : String → String → Proto

-- The JSON bodies that `to_binary` encodes.
pub data WasmBody : Type 0 where
  cw20_mint : String → ℕ → WasmBody
  cw20_burn : ℕ → WasmBody
  hub : ExecuteMsg → WasmBody
  fee_split_deposit : Bool → WasmBody

-- The token's instantiation: name, symbol, decimals and minter. Marketing text is left out.
pub record Cw20InstantiateMsg : Type 0 where
  pub name : String
  pub symbol : String
  pub decimals : ℕ
  pub minter : String

pub data CosmosMsg : Type 0 where
  stargate : String → Proto → CosmosMsg
  bank_send : String → List Coin → CosmosMsg
  wasm_execute : String → WasmBody → List Coin → CosmosMsg
  wasm_instantiate : String → ℕ → Cw20InstantiateMsg → String → CosmosMsg

pub data SubMsg : Type 0 where
  plain : CosmosMsg → SubMsg
  reply_on_success : CosmosMsg → ℕ → SubMsg

-- An attribute's value before it is printed; a list of ids is printed with commas.
pub data Value : Type 0 where
  text : String → Value
  number : ℕ → Value
  ids : List ℕ → Value

pub record Event : Type 0 where
  pub ty : String
  pub attributes : List (String × Value)

pub record Response : Type 0 where
  pub messages : List SubMsg
  pub events : List Event
  pub attributes : List (String × Value)

-- `Response::new().add_attribute("action", ..)` with messages and events.
unfoldable pub respond : List SubMsg → List Event → String → Response
respond messages events action = record {
  messages = messages;
  events = events;
  attributes = ("action", Value.text action) ∷ [];
}

pub record Env : Type 0 where
  pub time : ℕ
  pub height : ℕ
  pub contract : String

pub record MessageInfo : Type 0 where
  pub sender : String
  pub funds : List Coin

pub record Cosmwasm : Type 0 where
  pub addr_validate : String → Result String
  -- delegator, validator: the amount of the delegation, if there is one
  pub query_delegation : String → String → Result (Option ℕ)
  -- the validators to which an account delegates
  pub query_all_delegations : String → Result (List String)
  pub query_validator : String → Result (Option String)
  pub token_supply : String → Result ℕ
  pub query_balance : String → String → Result ℕ
  -- `Uint128::multiply_ratio`, `Decimal::from_ratio`, `Decimal * Uint128`
  pub multiply_ratio : ℕ → ℕ → ℕ → Result ℕ
  pub from_ratio : ℕ → ℕ → Result ℕ
  pub mul_decimal : ℕ → ℕ → Result ℕ
  -- the hexadecimal digest of a list of bytes
  pub sha256_hex : List ℕ → String

abbrev pub decimal_fractional : ℕ
decimal_fractional = 10 ^ 18

pub record IsCosmwasm (cw : Cosmwasm) : Type 0 where
  pub multiply_ratio_lem :
      (a n d : ℕ)
      → cw.multiply_ratio a n d ≡ (if d == 0 then err panic else fit u128_mod panic (a * n / d))
  pub from_ratio_lem :
      (n d : ℕ)
      → cw.from_ratio n d
        ≡ (if d == 0 then err panic else fit u128_mod panic (n * decimal_fractional / d))
  pub mul_decimal_lem :
      (d a : ℕ) → cw.mul_decimal d a ≡ fit u128_mod panic (a * d / decimal_fractional)
  pub count-sha256_hex : (bytes : List ℕ) → count (cw.sha256_hex bytes) ≡ 64
