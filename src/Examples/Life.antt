-- ===== src/Examples/Life.antt =====
-- A hub of contracts/hub/src from its creation to a withdrawal.
use joe_liquid_staking.Contract.{receive_hook, execute}
use joe_liquid_staking.Execute.Unbond.{queue_unbond, submit_batch, submitted_batch}
use joe_liquid_staking.Execute.Reconcile.{reconcile, sum_unclaimed, save_reconciled}
use joe_liquid_staking.Execute.Reply.{reply}
use joe_liquid_staking.Execute.Withdraw.{withdraw_unbonded}
use joe_liquid_staking.Helpers.{query_delegations, query_cw20_total_supply, get_denom_balance}
use joe_liquid_staking.Math.{compute_unbond_amount, sum_amounts, compute_undelegations}
use joe_liquid_staking.Types.{fee_type_from_str, find_coin, Env, ExecuteMsg, PendingBatch, Response}
use joe_liquid_staking.Prelude.{fit, sub_word, div_word, rem_word, ◌≡◌, refl, ok, arith}
use joe_liquid_staking.State.{
  State, find_request, find_batch, save_batch, save_request, requests_of, unreconciled,
}
use joe_liquid_staking.Store.{put}
use joe_liquid_staking.Execute.Instantiate.{instantiate, register_steak_token}
use joe_liquid_staking.Contract.Positive.{Used, reachable_withdrawal}
use joe_liquid_staking.Ledger.Exact.{PaidExactly}
use joe_liquid_staking.Examples.{chain, chain-IsCosmwasm, env, info, outcome}
use joe_liquid_staking.Examples.Contract.{
  setup, created, registered, events, letter, twelve, unbonding,
}

-- Alice unbonds 7 shares, the batch is submitted, and reconciled after its end.
abbrev unbonded : State × Response
unbonded = outcome (execute chain env (info "steak") unbonding registered.0)

abbrev later : Env
later = record env { time = 9000 }

abbrev submitted : State × Response
submitted = outcome (execute chain later (info "bob") ExecuteMsg.submit_batch unbonded.0)

abbrev latest : Env
latest = record env { time = 20000 }

abbrev reconciled : State × Response
reconciled = outcome (execute chain latest (info "bob") ExecuteMsg.reconcile submitted.0)

life : Used chain created.0 reconciled.0
unfolding instantiate fee_type_from_str fit register_steak_token execute submit_batch receive_hook
    queue_unbond find_request query_delegations query_cw20_total_supply compute_unbond_amount
    sum_amounts compute_undelegations sub_word div_word rem_word get_denom_balance reply
    save_request save_batch put reconcile sum_unclaimed unreconciled find_coin
life =
    Used.called
      (Used.called
        (Used.called (Used.replied Used.unused letter twelve env 1 events registered refl) env
          (info "steak") unbonding unbonded (omega arith) refl)
        later (info "bob") ExecuteMsg.submit_batch submitted tt refl)
      latest (info "bob") ExecuteMsg.reconcile reconciled tt refl

abbrev next_batch : PendingBatch
next_batch = record { id = 2; usteak_to_burn = 0; est_unbond_start_time = 9100 }

reachable_withdrawal_example :
    (out : State × Response) × (withdraw_unbonded chain latest "alice" "carol" reconciled.0
      ≡ ok out)
    × PaidExactly 20000 "alice" "carol" "ujoe" reconciled.0 out
unfolding instantiate fee_type_from_str fit register_steak_token execute submit_batch receive_hook
    queue_unbond find_request query_delegations query_cw20_total_supply compute_unbond_amount
    sum_amounts compute_undelegations sub_word div_word rem_word get_denom_balance reply
    save_request save_batch put reconcile sum_unclaimed unreconciled find_coin find_batch
    requests_of save_reconciled submitted_batch
reachable_withdrawal_example =
    reachable_withdrawal chain-IsCosmwasm env latest setup created reconciled.0 "alice" "carol"
      "ujoe" next_batch refl life refl refl (omega arith) (omega arith)
