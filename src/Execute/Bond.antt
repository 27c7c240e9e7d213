-- ===== src/Execute/Bond.antt =====
-- `bond` of contracts/hub/src/execute.rs.
pub mod Bonded
pub mod Paused
use joe_liquid_staking.Prelude.{
  ℕ, String, some, List, [], ◌∷◌, Result, ok, err, panic, ◌>>=◌, load, if◌then◌else◌, ltb,
}
use joe_liquid_staking.Types.{
  Cosmwasm, Env, Coin, Delegation, CosmosMsg, SubMsg, WasmBody, Value, Response, respond,
  delegation_msg,
}
use joe_liquid_staking.State.{State}
use joe_liquid_staking.Helpers.{
  query_delegations, query_cw20_total_supply, get_denom_balance, parse_received_fund,
}
use joe_liquid_staking.Math.{compute_mint_amount}

abbrev pub reply_register_received_coins : ℕ
reply_register_received_coins = 2

-- The linear search for the least delegation, from the best one so far.
unfoldable pub least_from : Delegation → List Delegation → Delegation
least_from best [] = best
least_from best (d ∷ ds) = least_from (if ltb d.amount best.amount then d else best) ds

-- `delegations[0]` is out of range where no validator is active.
unfoldable pub least_delegation : List Delegation → Result Delegation
unfolding least_from
least_delegation [] = err panic
least_delegation (d ∷ ds) = ok (least_from d ds)

module _ (cw : Cosmwasm) where
  unfoldable pub bond : Env → String → List Coin → State → Result (State × Response)
  bond env receiver funds s = do
    denom ← load s.denom
    amount_to_bond ← parse_received_fund funds denom
    steak_token ← load s.steak_token
    validators ← load s.validators_active
    delegations ← query_delegations cw validators env.contract denom
    least ← least_delegation delegations
    let new_delegation : Delegation = record {
      validator = least.validator;
      amount = amount_to_bond;
      denom = denom;
    }
    usteak_supply ← query_cw20_total_supply cw steak_token
    usteak_to_mint ← compute_mint_amount cw usteak_supply amount_to_bond delegations
    balance ← get_denom_balance cw env.contract denom
    ok (
      record s { prev_denom = some balance },
      respond
          (SubMsg.reply_on_success (delegation_msg new_delegation env.contract)
              reply_register_received_coins
            ∷ SubMsg.plain
                (CosmosMsg.wasm_execute steak_token (WasmBody.cw20_mint receiver usteak_to_mint) [])
            ∷ [])
          (record {
            ty = "steakhub/bonded";
            attributes =
                ("time", Value.number env.time)
                ∷ ("height", Value.number env.height)
                ∷ ("receiver", Value.text receiver)
                ∷ ("denom_bonded", Value.text denom)
                ∷ ("denom_amount", Value.number amount_to_bond)
                ∷ ("usteak_minted", Value.number usteak_to_mint)
                ∷ [];
          }
            ∷ [])
          "steakhub/bond",
    )
