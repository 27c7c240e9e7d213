-- ===== src/Ledger/Submit/Orders.antt =====
-- What a `submit_batch` of contracts/hub/src/execute.rs stores, orders and burns.
use joe_liquid_staking.Prelude.{ℕ, ◌+◌, ◌≤◌, ◌≡◌, refl, String, false, some, List, ok, arith}
use joe_liquid_staking.Types.{
  Cosmwasm, Env, PendingBatch, Batch, Delegation, Undelegation, Response,
}
use joe_liquid_staking.State.{State, find_batch}
use joe_liquid_staking.Helpers.{query_delegations, query_cw20_total_supply}
use joe_liquid_staking.Math.{compute_unbond_amount, compute_undelegations}
use joe_liquid_staking.Math.Undelegate.{undelegated, compute_undelegations-eq-ok}
use joe_liquid_staking.Execute.Unbond.{submit_batch, submitted_batch}
use joe_liquid_staking.Ledger.Maps.{find-save_batch}
use joe_liquid_staking.Ledger.Submit.{submit_msgs, submit_batch-eq-ok}

-- What a submission queried, stored and sends.
abbrev pub Submitted : Cosmwasm → Env → State → State × Response → Type 0
Submitted cw env s out =
    (pending : PendingBatch) × (b : Batch) × (next : PendingBatch) × (token : String)
    × (denom : String) × (validators : List String) × (ds : List Delegation) × (supply : ℕ)
    × (us : List Undelegation) × (unbond_period : ℕ) × (epoch_period : ℕ) × (s.denom ≡ some denom)
    × (s.steak_token ≡ some token)
    × (s.unbond_period ≡ some unbond_period)
    × (s.epoch_period ≡ some epoch_period)
    × (s.pending_batch ≡ some pending)
    × (pending.est_unbond_start_time ≤ env.time)
    × (find_batch pending.id out.0.previous_batches ≡ some b)
    × (b.reconciled ≡ false)
    × (b.total_shares ≡ pending.usteak_to_burn)
    × (b.est_unbond_end_time ≡ env.time + unbond_period)
    × (s.validators ≡ some validators)
    × (query_delegations cw validators env.contract denom ≡ ok ds)
    × (query_cw20_total_supply cw token ≡ ok supply)
    × (compute_unbond_amount cw supply pending.usteak_to_burn ds ≡ ok b.amount_unclaimed)
    × (compute_undelegations b.amount_unclaimed ds denom ≡ ok us)
    × (undelegated us ≡ b.amount_unclaimed)
    × (out.1.messages ≡ submit_msgs env token pending.usteak_to_burn us)
    × (out.0.pending_batch ≡ some next)
    × (next.id ≡ pending.id + 1)
    × (next.usteak_to_burn ≡ 0)
    × (next.est_unbond_start_time ≡ env.time + epoch_period)

-- A successful submission is not early. It stores under the pending id an unreconciled batch with
-- the queued shares, which ends after the stored unbonding period, and whose unclaimed amount is
-- `compute_unbond_amount` of the queued shares at the supply of the stored token and the delegations
-- of the stored denom to the listed validators; it orders the undelegations that
-- `compute_undelegations` answers on them, which add up to exactly that amount, and has the stored
-- token burn exactly the queued shares; and the next batch starts empty under the next id, after the
-- stored epoch period.
pub submit_batch_undelegates :
    (cw : Cosmwasm) (env : Env) (s : State) (out : State × Response)
    → submit_batch cw env s ≡ ok out
    → Submitted cw env s out
unfolding submitted_batch
submit_batch_undelegates cw env s out h =
    let done = submit_batch-eq-ok cw env s out h in
    let pending = done.pending in
    let b = submitted_batch pending done.amount done.end_time in
    (
      pending,
      b,
      record { id = pending.id + 1; usteak_to_burn = 0; est_unbond_start_time = done.start_time },
      done.token,
      done.denom,
      done.validators,
      done.delegations,
      done.supply,
      done.undelegations,
      done.unbond_period,
      done.epoch_period,
      done.denom_is,
      done.token_is,
      done.unbond_is,
      done.epoch_is,
      done.loaded,
      done.due,
      rw done.batches (ground (arith, find-save_batch pending.id b s.previous_batches)),
      refl,
      refl,
      done.ends,
      done.listed,
      done.queried,
      done.supplied,
      done.unbonded,
      done.computed,
      compute_undelegations-eq-ok done.amount done.delegations done.denom done.undelegations
          done.computed,
      done.messages,
      done.next,
      refl,
      refl,
      done.starts,
    )
