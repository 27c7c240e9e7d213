-- ===== src/Execute/Manage.antt =====
-- The ownership and management handlers of contracts/hub/src/execute.rs.
pub mod Listed
pub mod Owner
use joe_liquid_staking.Prelude.{
  ℕ, StdError, String, Bool, not, some, none, List, [], ◌∷◌, ◌++◌, map, Result, ok, generic_err,
  ◌>>=◌, ◌>>◌, guard, load, ok_or, unwrap_or, if◌then◌else◌, leb, str_eq, any, retain, add128,
}
use joe_liquid_staking.Types.{
  Cosmwasm, Env, Delegation, Redelegation, SubMsg, Value, Response, respond, Event,
  redelegation_msg, fee_type_from_str,
}
use joe_liquid_staking.State.{State, assert_owner}
use joe_liquid_staking.Helpers.{query_delegation, query_delegations, get_denom_balance}
use joe_liquid_staking.Math.{
  sum_amounts, compute_redelegations_for_removal, compute_redelegations_for_rebalancing,
}
use joe_liquid_staking.Execute.Bond.{reply_register_received_coins}
use joe_liquid_staking.Execute.Harvest.{target_of}

abbrev pub contains : List String → String → Bool
contains vs v = any (λ w. str_eq w v) vs

-- `retain(|v| *v != validator)`
abbrev pub without : List String → String → List String
without vs v = retain (λ w. not (str_eq w v)) vs

-- The validator at the end of the active ones, if it is not among them.
unfoldable pub activate : List String → String → List String
activate active v = if contains active v then active else active ++ (v ∷ [])

abbrev validator_event : String → String → List Event
validator_event ty v = record { ty = ty; attributes = ("validator", Value.text v) ∷ [] } ∷ []

abbrev not_whitelisted : StdError
not_whitelisted = generic_err "validator is not already whitelisted"

abbrev redelegate_submsg : Env → Redelegation → SubMsg
redelegate_submsg env r =
    SubMsg.reply_on_success (redelegation_msg r env.contract) reply_register_received_coins

-- `new_redelegations.iter().map(|rd| rd.amount).sum()`
unfoldable pub sum_redelegated : ℕ → List Redelegation → Result ℕ
sum_redelegated acc [] = ok acc
sum_redelegated acc (r ∷ rs) = do acc' ← add128 acc r.amount; sum_redelegated acc' rs

module _ (cw : Cosmwasm) where
  unfoldable pub rebalance : Env → ℕ → State → Result (State × Response)
  unfolding target_of
  rebalance env minimum s = do
    denom ← load s.denom
    validators ← load s.validators
    active ← load s.validators_active
    delegations ← query_delegations cw validators env.contract denom
    total_delegated ← sum_amounts delegations
    total_power ← load s.total_mining_power
    redelegations ←
        compute_redelegations_for_rebalancing active delegations minimum
          (λ d. target_of cw s total_delegated total_power d.validator)
    balance ← get_denom_balance cw env.contract denom
    amount ← sum_redelegated 0 redelegations
    ok (
      record s { prev_denom = some balance },
      respond (map (redelegate_submsg env) redelegations)
          (record {
            ty = "steakhub/rebalanced";
            attributes = ("amount_moved", Value.number amount) ∷ [];
          }
            ∷ [])
          "steakhub/rebalance",
    )

  unfoldable pub remove_validator : Env → String → String → State → Result (State × Response)
  unfolding activate
  remove_validator env sender validator s = do
    assert_owner s sender
    denom ← load s.denom
    listed ← load s.validators
    guard (contains listed validator) not_whitelisted
    let validators = without listed validator
    active ← load s.validators_active
    delegations ← query_delegations cw validators env.contract denom
    delegation_to_remove ← query_delegation cw validator env.contract denom
    redelegations ← compute_redelegations_for_removal delegation_to_remove delegations denom
    balance ← get_denom_balance cw env.contract denom
    ok (
      record s {
        validators = some validators;
        validators_active = some (activate active validator);
        prev_denom = some balance;
      },
      respond (map (redelegate_submsg env) redelegations)
          (validator_event "steak/validator_removed" validator) "steakhub/remove_validator",
    )

  unfoldable pub transfer_ownership : String → String → State → Result (State × Response)
  transfer_ownership sender new_owner s = do
    assert_owner s sender
    address ← cw.addr_validate new_owner
    ok (record s { new_owner = some address }, respond [] [] "steakhub/transfer_ownership")

  -- With `transfer_fee_account_internal` in it.
  unfoldable pub transfer_fee_account : String → String → String → State → Result (State × Response)
  transfer_fee_account sender fee_account_type new_fee_account s = do
    assert_owner s sender
    fee_type ←
        ok_or (fee_type_from_str fee_account_type)
          (generic_err "Invalid Fee type: Wallet or FeeSplit only")
    address ← cw.addr_validate new_fee_account
    ok (
      record s { fee_account_type = some fee_type; fee_account = some address },
      respond [] [] "steakhub/transfer_fee_account",
    )

unfoldable pub add_validator : String → String → State → Result (State × Response)
unfolding activate
add_validator sender validator s = do
  assert_owner s sender
  validators ← load s.validators
  guard (not (contains validators validator)) (generic_err "validator is already whitelisted")
  active ← load s.validators_active
  ok (
    record s {
      validators = some (validators ++ (validator ∷ []));
      validators_active = some (activate active validator);
    },
    respond [] (validator_event "steakhub/validator_added" validator) "steakhub/add_validator",
  )

unfoldable pub remove_validator_ex : String → String → State → Result (State × Response)
remove_validator_ex sender validator s = do
  assert_owner s sender
  validators ← load s.validators
  guard (contains validators validator) not_whitelisted
  ok (
    record s { validators = some (without validators validator) },
    respond [] (validator_event "steak/validator_removed_ex" validator)
        "steakhub/remove_validator_ex",
  )

unfoldable pub pause_validator : String → String → State → Result (State × Response)
pause_validator sender validator s = do
  assert_owner s sender
  active ← load s.validators_active
  guard (contains active validator) not_whitelisted
  ok (
    record s { validators_active = some (without active validator) },
    respond [] (validator_event "steak/pause_validator" validator) "steakhub/pause_validator",
  )

unfoldable pub unpause_validator : String → String → State → Result (State × Response)
unfolding activate
unpause_validator sender validator s = do
  assert_owner s sender
  active ← load s.validators_active
  ok (
    record s { validators_active = some (activate active validator) },
    respond [] (validator_event "steak/unpause_validator" validator) "steakhub/unpause_validator",
  )

unfoldable pub set_unbond_period : String → ℕ → State → Result (State × Response)
set_unbond_period sender period s = do
  assert_owner s sender
  ok (
    record s { unbond_period = some period },
    respond []
        (record {
          ty = "steak/set_unbond_period";
          attributes = ("unbond_period", Value.number period) ∷ [];
        }
          ∷ [])
        "steakhub/set_unbond_period",
  )

unfoldable pub accept_ownership : String → State → Result (State × Response)
accept_ownership sender s = do
  previous_owner ← load s.owner
  new_owner ← load s.new_owner
  guard (str_eq sender new_owner) (generic_err "unauthorized: sender is not new owner")
  ok (
    record s { owner = some sender; new_owner = none },
    respond []
        (record {
          ty = "steakhub/ownership_transferred";
          attributes =
              ("new_owner", Value.text new_owner)
              ∷ ("previous_owner", Value.text previous_owner)
              ∷ [];
        }
          ∷ [])
        "steakhub/transfer_ownership",
  )

unfoldable pub change_denom : String → String → State → Result (State × Response)
change_denom sender new_denom s = do
  assert_owner s sender
  ok (record s { denom = some new_denom }, respond [] [] "steakhub/change_denom")

unfoldable pub update_fee : String → ℕ → State → Result (State × Response)
update_fee sender new_fee s = do
  assert_owner s sender
  max_fee ← load s.max_fee_rate
  guard (leb new_fee max_fee) (generic_err "refusing to set fee above maximum set")
  ok (record s { fee_rate = some new_fee }, respond [] [] "steakhub/update_fee")
