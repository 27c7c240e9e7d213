-- ===== src/Contract/Frame.antt =====
-- What the handlers leave alone: the parts of the storage that the invariants speak of.
use joe_liquid_staking.Prelude.{ℕ, ◌≡◌, String, List, ok, arith}
use joe_liquid_staking.Types.{Cosmwasm, Env, Coin, Response}
use joe_liquid_staking.State.{State}
use joe_liquid_staking.Execute.Bond.{bond}
use joe_liquid_staking.Execute.Harvest.{harvest, reinvest}
use joe_liquid_staking.Execute.Manage.{
  rebalance, remove_validator, transfer_ownership, transfer_fee_account, add_validator,
  remove_validator_ex, pause_validator, unpause_validator, set_unbond_period, accept_ownership,
  update_fee,
}
use joe_liquid_staking.Execute.Mining.{update_entropy, submit_proof}
use joe_liquid_staking.Execute.Unbond.{queue_unbond, submit_batch}
use joe_liquid_staking.Execute.Reconcile.{reconcile}
use joe_liquid_staking.Execute.Withdraw.{withdraw_unbonded, withdraw_unbonded_admin}

-- The unbonding queue is as before.
pub record SameQueue (s t : State) : Type 0 where
  pub pending_batch : t.pending_batch ≡ s.pending_batch
  pub previous_batches : t.previous_batches ≡ s.previous_batches
  pub unbond_requests : t.unbond_requests ≡ s.unbond_requests

-- The fee rates and the mining numbers are as before.
pub record SameNumbers (s t : State) : Type 0 where
  pub fee_rate : t.fee_rate ≡ s.fee_rate
  pub max_fee_rate : t.max_fee_rate ≡ s.max_fee_rate
  pub miner_difficulty : t.miner_difficulty ≡ s.miner_difficulty
  pub total_mining_power : t.total_mining_power ≡ s.total_mining_power
  pub validator_mining_powers : t.validator_mining_powers ≡ s.validator_mining_powers

module _ (cw : Cosmwasm) where
  pub bond-Same :
      (env : Env) (receiver : String) (funds : List Coin) (s : State) (out : State × Response)
      → bond cw env receiver funds s ≡ ok out
      → SameQueue s out.0 × SameNumbers s out.0
  unfolding bond
  bond-Same env receiver funds s out h = ground arith

  pub harvest-Same :
      (env : Env) (sender : String) (s : State) (out : State × Response)
      → harvest cw env sender s ≡ ok out
      → SameQueue s out.0 × SameNumbers s out.0
  unfolding harvest
  harvest-Same env sender s out h = ground arith

  pub reinvest-Same :
      (env : Env) (s : State) (out : State × Response)
      → reinvest cw env s ≡ ok out
      → SameQueue s out.0 × SameNumbers s out.0
  unfolding reinvest
  reinvest-Same env s out h = ground arith

  pub rebalance-Same :
      (env : Env) (minimum : ℕ) (s : State) (out : State × Response)
      → rebalance cw env minimum s ≡ ok out
      → SameQueue s out.0 × SameNumbers s out.0
  unfolding rebalance
  rebalance-Same env minimum s out h = ground arith

  pub remove_validator-Same :
      (env : Env) (sender : String) (v : String) (s : State) (out : State × Response)
      → remove_validator cw env sender v s ≡ ok out
      → SameQueue s out.0 × SameNumbers s out.0
  unfolding remove_validator
  remove_validator-Same env sender v s out h = ground arith

  pub transfer_ownership-Same :
      (sender : String) (o : String) (s : State) (out : State × Response)
      → transfer_ownership cw sender o s ≡ ok out
      → SameQueue s out.0 × SameNumbers s out.0
  unfolding transfer_ownership
  transfer_ownership-Same sender o s out h = ground arith

  pub transfer_fee_account-Same :
      (sender : String) (ty : String) (account : String) (s : State) (out : State × Response)
      → transfer_fee_account cw sender ty account s ≡ ok out
      → SameQueue s out.0 × SameNumbers s out.0
  unfolding transfer_fee_account
  transfer_fee_account-Same sender ty account s out h = ground arith

  pub update_entropy-SameQueue :
      (env : Env) (entropy : String) (s : State) (out : State × Response)
      → update_entropy cw env entropy s ≡ ok out
      → SameQueue s out.0
  unfolding update_entropy
  update_entropy-SameQueue env entropy s out h = ground arith

  pub submit_proof-SameQueue :
      (env : Env) (sender : String) (nonce : ℕ) (v : String) (s : State) (out : State × Response)
      → submit_proof cw env sender nonce v s ≡ ok out
      → SameQueue s out.0
  unfolding submit_proof
  submit_proof-SameQueue env sender nonce v s out h = ground arith

  pub submit_batch-SameNumbers :
      (env : Env) (s : State) (out : State × Response)
      → submit_batch cw env s ≡ ok out
      → SameNumbers s out.0
  unfolding submit_batch
  submit_batch-SameNumbers env s out h = ground arith

  pub reconcile-SameNumbers :
      (env : Env) (s : State) (out : State × Response)
      → reconcile cw env s ≡ ok out
      → SameNumbers s out.0
  unfolding reconcile
  reconcile-SameNumbers env s out h = ground arith

  pub withdraw_unbonded-SameNumbers :
      (env : Env) (user : String) (receiver : String) (s : State) (out : State × Response)
      → withdraw_unbonded cw env user receiver s ≡ ok out
      → SameNumbers s out.0
  unfolding withdraw_unbonded
  withdraw_unbonded-SameNumbers env user receiver s out h = ground arith

  pub withdraw_unbonded_admin-SameNumbers :
      (env : Env) (user : String) (receiver : String) (s : State) (out : State × Response)
      → withdraw_unbonded_admin cw env user receiver s ≡ ok out
      → SameNumbers s out.0
  unfolding withdraw_unbonded_admin
  withdraw_unbonded_admin-SameNumbers env user receiver s out h =
      ground (arith, withdraw_unbonded-SameNumbers env receiver receiver s out)

pub add_validator-Same :
    (sender : String) (v : String) (s : State) (out : State × Response)
    → add_validator sender v s ≡ ok out
    → SameQueue s out.0 × SameNumbers s out.0
unfolding add_validator
add_validator-Same sender v s out h = ground arith

pub remove_validator_ex-Same :
    (sender : String) (v : String) (s : State) (out : State × Response)
    → remove_validator_ex sender v s ≡ ok out
    → SameQueue s out.0 × SameNumbers s out.0
unfolding remove_validator_ex
remove_validator_ex-Same sender v s out h = ground arith

pub pause_validator-Same :
    (sender : String) (v : String) (s : State) (out : State × Response)
    → pause_validator sender v s ≡ ok out
    → SameQueue s out.0 × SameNumbers s out.0
unfolding pause_validator
pause_validator-Same sender v s out h = ground arith

pub unpause_validator-Same :
    (sender : String) (v : String) (s : State) (out : State × Response)
    → unpause_validator sender v s ≡ ok out
    → SameQueue s out.0 × SameNumbers s out.0
unfolding unpause_validator
unpause_validator-Same sender v s out h = ground arith

pub set_unbond_period-Same :
    (sender : String) (period : ℕ) (s : State) (out : State × Response)
    → set_unbond_period sender period s ≡ ok out
    → SameQueue s out.0 × SameNumbers s out.0
unfolding set_unbond_period
set_unbond_period-Same sender period s out h = ground arith

pub accept_ownership-Same :
    (sender : String) (s : State) (out : State × Response)
    → accept_ownership sender s ≡ ok out
    → SameQueue s out.0 × SameNumbers s out.0
unfolding accept_ownership
accept_ownership-Same sender s out h = ground arith

pub update_fee-SameQueue :
    (sender : String) (fee : ℕ) (s : State) (out : State × Response)
    → update_fee sender fee s ≡ ok out
    → SameQueue s out.0
unfolding update_fee
update_fee-SameQueue sender fee s out h = ground arith

pub queue_unbond-SameNumbers :
    (env : Env) (receiver : String) (amount : ℕ) (s : State) (out : State × Response)
    → queue_unbond env receiver amount s ≡ ok out
    → SameNumbers s out.0
unfolding queue_unbond
queue_unbond-SameNumbers env receiver amount s out h = ground arith
