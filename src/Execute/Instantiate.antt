-- ===== src/Execute/Instantiate.antt =====
-- `instantiate` and `register_steak_token` of contracts/hub/src/execute.rs.
use joe_liquid_staking.Prelude.{
  ℕ, String, some, List, [], ◌∷◌, Result, ok, generic_err, ◌>>=◌, ◌>>◌, guard, ok_or, unwrap_or,
  leb, add64, find, str_eq,
}
use joe_liquid_staking.Types.{
  Cosmwasm, Env, InstantiateMsg, CosmosMsg, SubMsg, Response, decimal_fractional, fee_type_from_str,
}
use joe_liquid_staking.State.{State}

abbrev pub reply_instantiate_token : ℕ
reply_instantiate_token = 1

-- An event of a reply: its type, and its attributes as keys and values.
pub record ReplyEvent : Type 0 where
  pub ty : String
  pub attributes : List (String × String)

module _ (cw : Cosmwasm) where
  unfoldable pub instantiate : Env → InstantiateMsg → State → Result (State × Response)
  instantiate env msg s = do
    guard (leb msg.max_fee_amount decimal_fractional) (generic_err "Max fee can not exceed 1/100%")
    guard (leb msg.fee_amount msg.max_fee_amount) (generic_err "fee can not exceed max fee")
    fee_type ←
        ok_or (fee_type_from_str msg.fee_account_type)
          (generic_err "Invalid Fee type: Wallet or FeeSplit only")
    owner ← cw.addr_validate msg.owner
    fee_account ← cw.addr_validate msg.fee_account
    start ← add64 env.time msg.epoch_period
    ok (
      record s {
        owner = some owner;
        epoch_period = some msg.epoch_period;
        unbond_period = some msg.unbond_period;
        validators = some msg.validators;
        unlocked_coins = some [];
        prev_denom = some 0;
        denom = some msg.denom;
        max_fee_rate = some msg.max_fee_amount;
        fee_rate = some msg.fee_amount;
        fee_account_type = some fee_type;
        fee_account = some fee_account;
        pending_batch = some (record { id = 1; usteak_to_burn = 0; est_unbond_start_time = start });
        validators_active = some msg.validators;
        miner_entropy = some env.contract;
        miner_entropy_draft = some env.contract;
        miner_difficulty = some 1;
        miner_last_mined_timestamp = some env.time;
        miner_last_mined_block = some env.height;
        total_mining_power = some 0;
      },
      record {
        messages =
            SubMsg.reply_on_success
              (CosmosMsg.wasm_instantiate msg.owner msg.cw20_code_id
                (record {
                  name = msg.name;
                  symbol = msg.symbol;
                  decimals = msg.decimals;
                  minter = env.contract;
                })
                (unwrap_or msg.label "steak_token"))
              reply_instantiate_token
            ∷ [];
        events = [];
        attributes = [];
      },
    )

  unfoldable pub register_steak_token : List ReplyEvent → State → Result (State × Response)
  register_steak_token events s = do
    event ←
        ok_or (find (λ e. str_eq e.ty "instantiate") events)
          (generic_err "cannot find `instantiate` event")
    attribute ←
        ok_or (find (λ a. str_eq a.0 "_contract_address") event.attributes)
          (generic_err "cannot find `_contract_address` attribute")
    contract_addr ← cw.addr_validate attribute.1
    ok (
      record s { steak_token = some contract_addr },
      record { messages = []; events = []; attributes = [] },
    )
