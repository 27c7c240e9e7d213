-- ===== src/Examples/Burns.antt =====
-- The burns of contracts/hub/src on a concrete run.
use joe_liquid_staking.Contract.{receive_hook}
use joe_liquid_staking.Execute.Unbond.{queue_unbond, submit_batch}
use joe_liquid_staking.Helpers.{query_delegations, query_cw20_total_supply, get_denom_balance}
use joe_liquid_staking.Math.{compute_unbond_amount, sum_amounts, compute_undelegations}
use joe_liquid_staking.Types.{fee_type_from_str, respond}
use joe_liquid_staking.State.{find_request}
use joe_liquid_staking.Prelude.{fit, sub_word, div_word, rem_word, ◌+◌, ◌≤◌, refl}
use joe_liquid_staking.Types.{Env, ExecuteMsg, Response}
use joe_liquid_staking.State.{State}
use joe_liquid_staking.Execute.Instantiate.{instantiate, register_steak_token}
use joe_liquid_staking.Contract.{execute}
use joe_liquid_staking.Contract.Shares.{burned}
use joe_liquid_staking.Contract.Covered.{received}
use joe_liquid_staking.Contract.Burns.{Account, Run, Step, burns_covered}
use joe_liquid_staking.Examples.{chain, env, info, outcome}
use joe_liquid_staking.Examples.Contract.{setup, created, events, unbonding}

abbrev registered : State × Response
registered = outcome (register_steak_token chain events created.0)

-- Somebody unbonds 7 shares, and later the batch is submitted.
abbrev unbonded : State × Response
unbonded = outcome (execute chain env (info "steak") unbonding registered.0)

abbrev after : Env
after = record env { time = 9000 }

abbrev submitted : State × Response
submitted = outcome (execute chain after (info "bob") ExecuteMsg.submit_batch unbonded.0)

abbrev unbonding_account : Account
unbonding_account = record { hub = unbonded.0; held = 7 }

unbonding_run : Run chain "steak" (record { hub = registered.0; held = 0 }) unbonding_account
unfolding execute receive_hook register_steak_token queue_unbond instantiate fee_type_from_str fit
    find_request respond
unbonding_run = Run.stepped Run.started (
    Step.called env (info "steak") unbonding (record { hub = registered.0; held = 0 }) unbonded
      refl)

burns_covered_example :
    burned submitted.1.messages ≤ 7 + received "steak" (info "bob") ExecuteMsg.submit_batch
unfolding instantiate fee_type_from_str fit register_steak_token execute submit_batch receive_hook
    queue_unbond find_request query_delegations query_cw20_total_supply compute_unbond_amount
    sum_amounts compute_undelegations sub_word div_word rem_word get_denom_balance
burns_covered_example =
    burns_covered chain "steak" env setup events created registered unbonding_account refl refl refl
      unbonding_run after (info "bob") ExecuteMsg.submit_batch submitted refl
