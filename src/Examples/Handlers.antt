-- ===== src/Examples/Handlers.antt =====
-- The theorems on the other handlers of contracts/hub/src/execute.rs at a concrete storage.
use joe_liquid_staking.Helpers.{
  get_denom_balance, query_cw20_total_supply, query_delegations, parse_received_fund,
}
use joe_liquid_staking.Execute.Bond.{least_delegation, bond}
use joe_liquid_staking.Math.{
  compute_mint_amount, compute_redelegations_for_removal,
  compute_target_delegation_from_mining_power, sum_amounts,
}
use joe_liquid_staking.Prelude.{
  ◌+◌, ◌*◌, ◌/◌, div_word, fit, rem_word, sub_word, ◌<◌, ◌≢◌, refl, some, [], ◌∷◌, ok, arith,
}
use joe_liquid_staking.State.{assert_owner, find_power, State}
use joe_liquid_staking.Types.{Response, decimal_fractional}
use joe_liquid_staking.Execute.Bond.Bonded.{Delegated, bond_delegates}
use joe_liquid_staking.Execute.Bond.Paused.{Mints, Stakes, bond_dilutes}
use joe_liquid_staking.Execute.Harvest.{reinvest}
use joe_liquid_staking.Execute.Harvest.Reinvested.{Split, reinvest_splits}
use joe_liquid_staking.Execute.Manage.{remove_validator, transfer_ownership}
use joe_liquid_staking.Execute.Manage.Listed.{Moved, remove_validator_activates}
use joe_liquid_staking.Execute.Manage.Owner.{
  updating_fee, perform, perform_rejects, Transferred, transfer_then_accept,
}
use joe_liquid_staking.Execute.Mining.{submit_proof}
use joe_liquid_staking.Execute.Mining.Reward.{Rewarded, submit_proof_accepts}
use joe_liquid_staking.Examples.{chain, chain-IsCosmwasm, env, info, storage, outcome, delegations}

abbrev bonded : State × Response
bonded = outcome (bond chain env "alice" (info "alice").funds storage)

bond_delegates_example : Delegated chain env "alice" (info "alice").funds storage bonded
unfolding bond parse_received_fund query_delegations least_delegation query_cw20_total_supply
    compute_mint_amount sum_amounts fit get_denom_balance
bond_delegates_example = bond_delegates chain env "alice" (info "alice").funds storage bonded refl

abbrev reinvested : State × Response
reinvested = outcome (reinvest chain env storage)

reinvest_splits_example : Split chain env (decimal_fractional / 10) storage reinvested
unfolding reinvest get_denom_balance query_delegations sum_amounts fit
    compute_target_delegation_from_mining_power find_power
reinvest_splits_example =
    reinvest_splits chain env storage (decimal_fractional / 10) reinvested refl (omega arith) refl

perform_rejects_example :
    perform chain (updating_fee 5) "mallory" storage
    ≢ ok (outcome (perform chain (updating_fee 5) "owner" storage))
perform_rejects_example =
    perform_rejects chain (updating_fee 5) "mallory" storage
      (outcome (perform chain (updating_fee 5) "owner" storage)) (λ e. cc)

abbrev named : State × Response
named = outcome (transfer_ownership chain "owner" "heir" storage)

transfer_then_accept_example : Transferred "owner" "heir" "mallory" storage named
unfolding transfer_ownership assert_owner
transfer_then_accept_example =
    transfer_then_accept chain "owner" "heir" "heir" "mallory" storage named refl refl

abbrev removed : State × Response
removed = outcome (remove_validator chain env "owner" "v2" storage)

remove_validator_activates_example : Moved "v2" removed
unfolding remove_validator assert_owner query_delegations compute_redelegations_for_removal
    sum_amounts fit div_word rem_word get_denom_balance
remove_validator_activates_example =
    remove_validator_activates chain env "owner" "v2" storage removed refl

abbrev proved : State × Response
proved = outcome (submit_proof chain env "miner" 77 "v1" storage)

submit_proof_accepts_example : Rewarded chain env "miner" 77 "v1" storage proved
unfolding submit_proof sub_word fit find_power
submit_proof_accepts_example = submit_proof_accepts chain env "miner" 77 "v1" storage proved refl

-- Only v2, with 61 of the 161 that are staked, is active.
abbrev paused_one : State
paused_one = record storage { validators_active = some ("v2" ∷ []) }

abbrev bonded_more : State × Response
bonded_more =
    outcome (bond chain env "alice" (record { denom = "ujoe"; amount = 61 } ∷ []) paused_one)

stakes :
    Stakes chain env paused_one "ujoe" "steak"
      (record { validator = "v2"; amount = 61; denom = "ujoe" } ∷ [])
      delegations
      120
unfolding query_delegations query_cw20_total_supply
stakes = record {
  validators = "v1" ∷ "v2" ∷ [];
  validators_active = "v2" ∷ [];
  denom_is = refl;
  token_is = refl;
  validators_is = refl;
  active_is = refl;
  all_staked = refl;
  active_staked = refl;
  supply_is = refl;
}

bond_dilutes_example :
    Mints bonded_more "steak" "alice" 120 × ((161 + 61) * 120 < 161 * (120 + 120))
unfolding bond parse_received_fund query_delegations least_delegation query_cw20_total_supply
    compute_mint_amount sum_amounts fit get_denom_balance
bond_dilutes_example =
    bond_dilutes chain-IsCosmwasm env "alice" paused_one "ujoe" "steak"
      (record { validator = "v2"; amount = 61; denom = "ujoe" } ∷ []) delegations 120 61 120
      bonded_more stakes refl (omega arith) (omega arith) (omega arith) (omega arith)
