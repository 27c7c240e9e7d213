-- ===== src/Types/Hub.antt =====
-- packages/steak/src/hub.rs: messages, stored records and responses. An address and a denom are
-- texts, a Decimal is its number of atomics (10^18 to 1), words are numbers.
use joe_liquid_staking.Prelude.{ℕ, String, Bool, Option, none, some, List, if◌then◌else◌, str_eq}

pub record Coin : Type 0 where
  pub denom : String
  pub amount : ℕ

pub data FeeType : Type 0 where
  wallet fee_split : FeeType

-- `FeeType::from_str`; its error type is ().
unfoldable pub fee_type_from_str : String → Option FeeType
fee_type_from_str s =
    if str_eq s "Wallet"
    then some FeeType.wallet
    else if str_eq s "FeeSplit"
    then some FeeType.fee_split
    else none

unfoldable pub fee_type_to_string : FeeType → String
fee_type_to_string FeeType.wallet = "Wallet"
fee_type_to_string FeeType.fee_split = "FeeSplit"

pub record InstantiateMsg : Type 0 where
  pub cw20_code_id : ℕ
  pub owner : String
  pub name : String
  pub symbol : String
  pub decimals : ℕ
  pub epoch_period : ℕ
  pub unbond_period : ℕ
  pub validators : List String
  pub denom : String
  pub fee_account_type : String
  pub fee_account : String
  pub fee_amount : ℕ
  pub max_fee_amount : ℕ
  pub label : Option String

pub data CallbackMsg : Type 0 where
  reinvest : CallbackMsg

-- The body of a Cw20 receive message, `from_binary` of it done.
pub data ReceiveMsg : Type 0 where
  queue_unbond : Option String → ReceiveMsg

pub record Cw20ReceiveMsg : Type 0 where
  pub sender : String
  pub amount : ℕ
  pub msg : Option ReceiveMsg

pub data ExecuteMsg : Type 0 where
  receive : Cw20ReceiveMsg → ExecuteMsg
  bond withdraw_unbonded : Option String → ExecuteMsg
  withdraw_unbonded_admin add_validator remove_validator remove_validator_ex : String → ExecuteMsg
  pause_validator unpause_validator transfer_ownership : String → ExecuteMsg
  accept_ownership harvest : ExecuteMsg
  rebalance : ℕ → ExecuteMsg
  reconcile submit_batch : ExecuteMsg
  set_unbond_period : ℕ → ExecuteMsg
  transfer_fee_account : String → String → ExecuteMsg
  update_fee : ℕ → ExecuteMsg
  update_entropy : String → ExecuteMsg
  submit_proof : ℕ → String → ExecuteMsg
  callback : CallbackMsg → ExecuteMsg

pub record PendingBatch : Type 0 where
  pub id : ℕ
  pub usteak_to_burn : ℕ
  pub est_unbond_start_time : ℕ

pub record Batch : Type 0 where
  pub id : ℕ
  pub reconciled : Bool
  pub total_shares : ℕ
  pub amount_unclaimed : ℕ
  pub est_unbond_end_time : ℕ

pub record UnbondRequest : Type 0 where
  pub id : ℕ
  pub user : String
  pub shares : ℕ

pub record MinerParamsResponse : Type 0 where
  pub entropy : String
  pub difficulty : ℕ
