-- ===== src/Examples/Ledger.antt =====
-- The theorems on the unbonding queue of contracts/hub/src/execute.rs at a concrete storage.
use joe_liquid_staking.Helpers.{get_denom_balance, query_cw20_total_supply, query_delegations}
use joe_liquid_staking.Math.{
  compute_unbond_amount, compute_undelegations, reconcile_batches, reconcile_loop, sum_amounts,
}
use joe_liquid_staking.Store.{put}
use joe_liquid_staking.Execute.Reconcile.{sum_unclaimed, reconcile}
use joe_liquid_staking.Types.{find_coin, Response}
use joe_liquid_staking.Prelude.{
  [], ◌∷◌, refl, arith, ◌≡◌, ◌≤◌, ok, fit, sub_word, div_word, rem_word,
}
use joe_liquid_staking.State.{State, find_batch, save_batch, requests_of, unreconciled}
use joe_liquid_staking.Execute.Unbond.{submit_batch}
use joe_liquid_staking.Execute.Withdraw.{withdraw_unbonded}
use joe_liquid_staking.Ledger.Submit.Orders.{Submitted, submit_batch_undelegates}
use joe_liquid_staking.Ledger.Exact.{owed, PaidExactly, withdraw_unbonded_exact}
use joe_liquid_staking.Ledger.Due.{IsDue, IsSubmitted, submit_batch_total}
use joe_liquid_staking.Ledger.Promised.{Promises, reconcile-Promises}
use joe_liquid_staking.Ledger.Fair.{withdraw_keeps_others}
use joe_liquid_staking.Ledger.Reconciled.{Deducted, reconcile_deducts}
use joe_liquid_staking.Examples.{
  chain, chain-IsCosmwasm, env, storage, storage-Balanced, pending, outcome, delegations,
}

abbrev submitted : State × Response
submitted = outcome (submit_batch chain env storage)

submit_batch_undelegates_example : Submitted chain env storage submitted
unfolding submit_batch query_delegations query_cw20_total_supply compute_unbond_amount sum_amounts
    fit compute_undelegations sub_word div_word rem_word get_denom_balance
submit_batch_undelegates_example = submit_batch_undelegates chain env storage submitted refl

storage-IsDue : IsDue chain env storage pending delegations 120
unfolding query_delegations query_cw20_total_supply get_denom_balance
storage-IsDue = record {
  denom = "ujoe";
  token = "steak";
  validators = "v1" ∷ "v2" ∷ [];
  unbond_period = 700;
  epoch_period = 100;
  balance = 50;
  denom_is = refl;
  token_is = refl;
  validators_is = refl;
  unbond_is = refl;
  epoch_is = refl;
  pending_is = refl;
  queried = refl;
  supplied = refl;
  balanced = refl;
  due = omega arith;
  some_validator = omega arith;
  some_supply = omega arith;
  among = omega arith;
  staked_fits = omega arith;
  end_fits = omega arith;
  start_fits = omega arith;
  id_fits = omega arith;
}

submit_batch_total_example :
    (out : State × Response) × (submit_batch chain env storage ≡ ok out)
    × IsSubmitted chain-IsCosmwasm env storage pending delegations 120 storage-IsDue out
submit_batch_total_example =
    submit_batch_total chain-IsCosmwasm env storage pending delegations 120 storage-IsDue

abbrev paid : State × Response
paid = outcome (withdraw_unbonded chain env "alice" "carol" storage)

withdraw_unbonded_exact_example :
    (out : State × Response) × (withdraw_unbonded chain env "alice" "carol" storage ≡ ok out)
    × PaidExactly env.time "alice" "carol" "ujoe" storage out
unfolding requests_of find_batch
withdraw_unbonded_exact_example =
    withdraw_unbonded_exact chain-IsCosmwasm env "alice" "carol" storage pending "ujoe" refl refl
      storage-Balanced (omega arith, (omega arith, tt)) (omega arith) (omega arith)

withdraw_keeps_others_example : owed env.time "bob" storage ≤ owed env.time "bob" paid.0
unfolding withdraw_unbonded requests_of find_batch fit sub_word save_batch put
withdraw_keeps_others_example =
    withdraw_keeps_others chain-IsCosmwasm env "alice" "carol" "bob" storage pending env.time paid
      refl storage-Balanced (omega arith, (omega arith, tt)) (omega arith) refl refl

abbrev deducted : State × Response
deducted = outcome (reconcile chain env storage)

reconcile_deducts_example : Deducted chain env storage deducted
unfolding reconcile sum_unclaimed unreconciled fit find_coin reconcile_batches div_word rem_word
    reconcile_loop sub_word
reconcile_deducts_example =
    reconcile_deducts chain env storage deducted pending refl storage-Balanced refl

reconcile-Promises_example : Promises chain env storage deducted
unfolding reconcile sum_unclaimed unreconciled fit find_coin reconcile_batches div_word rem_word
    reconcile_loop sub_word
reconcile-Promises_example =
    reconcile-Promises chain env storage deducted pending refl storage-Balanced refl
