-- ===== src/Ledger/Due.antt =====
-- When `submit_batch` of contracts/hub/src/execute.rs goes through.
use joe_liquid_staking.Prelude.{
  continues_with, ℕ, ◌+◌, ◌*◌, ◌/◌, ◌≤◌, ◌<◌, ◌≡◌, refl, ap, String, some, true, false, List, ok,
  arith, length, load, leb, fit_eq, panic, u64_mod, u128_mod,
}
use native.Mathlib.Nat.{div-le_of_le-mul, mul-le-mul_left, mul_comm}
use joe_liquid_staking.Types.{Cosmwasm, IsCosmwasm, Env, PendingBatch, Batch, Delegation, Response}
use joe_liquid_staking.State.{State, find_batch}
use joe_liquid_staking.Helpers.{query_delegations, query_cw20_total_supply, get_denom_balance}
use joe_liquid_staking.Math.{compute_unbond_amount}
use joe_liquid_staking.Math.Even.{staked, sum_amounts_eq}
use joe_liquid_staking.Math.Undelegate.{compute_undelegations_total}
use joe_liquid_staking.Math.Ratio.{multiply_ratio_eq}
use joe_liquid_staking.Execute.Unbond.{submit_batch, submitted_batch}
use joe_liquid_staking.Ledger.Maps.{find-save_batch}

-- A hub that is set up, with a pending batch whose time has come, at a chain that answers it: some
-- validator is listed, the shares to burn are among the supply, and no number is at its largest.
pub record IsDue (cw : Cosmwasm) (env : Env) (s : State) (pending : PendingBatch)
    (ds : List Delegation) (supply : ℕ) : Type 0 where
  pub denom : String
  pub token : String
  pub validators : List String
  pub unbond_period : ℕ
  pub epoch_period : ℕ
  pub balance : ℕ
  pub denom_is : s.denom ≡ some denom
  pub token_is : s.steak_token ≡ some token
  pub validators_is : s.validators ≡ some validators
  pub unbond_is : s.unbond_period ≡ some unbond_period
  pub epoch_is : s.epoch_period ≡ some epoch_period
  pub pending_is : s.pending_batch ≡ some pending
  pub queried : query_delegations cw validators env.contract denom ≡ ok ds
  pub supplied : query_cw20_total_supply cw token ≡ ok supply
  pub balanced : get_denom_balance cw env.contract denom ≡ ok balance
  pub due : pending.est_unbond_start_time ≤ env.time
  pub some_validator : 0 < length ds
  pub some_supply : 0 < supply
  pub among : pending.usteak_to_burn ≤ supply
  pub staked_fits : staked ds < u128_mod
  pub end_fits : env.time + unbond_period < u64_mod
  pub start_fits : env.time + epoch_period < u64_mod
  pub id_fits : pending.id + 1 < u64_mod

-- What the queued shares are worth of all that is staked.
abbrev pub worth_of : ℕ → List Delegation → ℕ → ℕ
worth_of burn ds supply = staked ds * burn / supply

worth_of-le :
    (burn : ℕ) (ds : List Delegation) (supply : ℕ)
    → burn ≤ supply
    → worth_of burn ds supply ≤ staked ds
worth_of-le burn ds supply among =
    div-le_of_le-mul supply (rw (mul_comm supply (staked ds)) (mul-le-mul_left (staked ds) among))

module _ {cw : Cosmwasm} (law : IsCosmwasm cw) (env : Env) (s : State) (pending : PendingBatch)
    (ds : List Delegation) (supply : ℕ) (h : IsDue cw env s pending ds supply) where
  abbrev pub batch : Batch
  batch = record {
    id = pending.id;
    reconciled = false;
    total_shares = pending.usteak_to_burn;
    amount_unclaimed = worth_of pending.usteak_to_burn ds supply;
    est_unbond_end_time = env.time + h.unbond_period;
  }

  abbrev amount : ℕ
  amount = worth_of pending.usteak_to_burn ds supply

  amount_eq : compute_unbond_amount cw supply pending.usteak_to_burn ds ≡ ok amount
  unfolding compute_unbond_amount
  amount_eq =
      let le = worth_of-le pending.usteak_to_burn ds supply h.among in
      rw (sum_amounts_eq ds h.staked_fits) (
        multiply_ratio_eq law (staked ds) pending.usteak_to_burn supply h.some_supply
          (omega (arith, le, h.staked_fits)))

  -- What is stored of a submission.
  abbrev pub IsSubmitted : State × Response → Type 0
  IsSubmitted out =
      (find_batch pending.id out.0.previous_batches ≡ some batch)
      × (out.0.pending_batch
          ≡ some (record {
            id = pending.id + 1;
            usteak_to_burn = 0;
            est_unbond_start_time = env.time + h.epoch_period;
          }))

  -- A pending batch that is due is submitted: with the hub set up, the queries answered, a
  -- validator listed, the queued shares within the supply and no number at its largest,
  -- `submit_batch` succeeds. It stores under the pending id an unreconciled batch of the queued
  -- shares, with their part of all that is staked, rounded down, unclaimed, and an end after the
  -- unbonding period; and the next batch starts empty under the next id, after the epoch period.
  pub submit_batch_total :
      (out : State × Response) × (submit_batch cw env s ≡ ok out) × IsSubmitted out
  unfolding submit_batch submitted_batch
  submit_batch_total =
      let le = worth_of-le pending.usteak_to_burn ds supply h.among in
      let (us, computed, _) =
        compute_undelegations_total amount ds h.denom h.some_validator h.staked_fits le in
      let on_time : leb pending.est_unbond_start_time env.time ≡ true = ground (arith, h.due) in
      continues_with IsSubmitted (load s.denom) _ (ap load h.denom_is) (
        continues_with IsSubmitted (load s.steak_token) _ (ap load h.token_is) (
          continues_with IsSubmitted (load s.validators) _ (ap load h.validators_is) (
            continues_with IsSubmitted (load s.unbond_period) _ (ap load h.unbond_is) (
              continues_with IsSubmitted (load s.pending_batch) _ (ap load h.pending_is) (
                rw on_time (
                  continues_with IsSubmitted _ _ h.queried (
                    continues_with IsSubmitted _ _ h.supplied (
                      continues_with IsSubmitted _ _ amount_eq (
                        continues_with IsSubmitted _ _ computed (
                          continues_with IsSubmitted _ _
                            (fit_eq u64_mod panic (env.time + h.unbond_period) h.end_fits)
                            (continues_with IsSubmitted _ _ (ap load h.epoch_is) (
                              continues_with IsSubmitted _ _
                                (fit_eq u64_mod panic (pending.id + 1) h.id_fits)
                                (continues_with IsSubmitted _ _
                                  (fit_eq u64_mod panic (env.time + h.epoch_period) h.start_fits)
                                  (continues_with IsSubmitted _ _ h.balanced (
                                    _,
                                    refl,
                                    (
                                      ground (
                                        arith,
                                        find-save_batch pending.id batch s.previous_batches,
                                      ),
                                      refl,
                                    ),
                                  )))))))))))))))
