-- ===== src/Examples/Math.antt =====
-- The theorems on contracts/hub/src/math.rs at concrete delegations and batches.
use joe_liquid_staking.Prelude.{
  ℕ, ◌+◌, ◌-◌, ◌*◌, ◌≤◌, min, ◌≡◌, refl, List, [], ◌∷◌, ok, err, panic, All, arith, inl, inr,
  div_word, rem_word, fit,
}
use joe_liquid_staking.Types.{Delegation, Undelegation, Redelegation}
use joe_liquid_staking.Math.{
  compute_mint_amount, compute_unbond_amount, compute_undelegations,
  compute_redelegations_for_removal, compute_redelegations_for_rebalancing, reconcile_batches,
  sum_amounts, sum_from, sort_delegations, classify, match_loop,
}
use joe_liquid_staking.Math.Undelegate.{
  undelegated, compute_undelegations_total, compute_undelegations-Leaves, Leaves,
}
use joe_liquid_staking.Math.Remove.{moved, Fills, compute_removal_total, compute_removal-Fills}
use joe_liquid_staking.Math.Ratio.{mint_keeps_ratio, unbond_keeps_ratio}
use joe_liquid_staking.Math.Rebalance.{IsActive, rebalancing_within_targets}
use joe_liquid_staking.Math.Rebalance.Moved.{surpluses, deficits, rebalancing_moves}
use joe_liquid_staking.Math.Reconcile.{reconcile_batches_short}
use joe_liquid_staking.Examples.{chain-IsCosmwasm, delegations, batches}

compute_undelegations_total_example :
    (us : List Undelegation) × (compute_undelegations 21 delegations "ujoe" ≡ ok us)
    × (undelegated us ≡ 21)
compute_undelegations_total_example =
    compute_undelegations_total 21 delegations "ujoe" (omega arith) (omega arith) (omega arith)

compute_undelegations-Leaves_example :
    (us : List Undelegation) × (compute_undelegations 21 delegations "ujoe" ≡ ok us)
    × Leaves 70 delegations us
compute_undelegations-Leaves_example =
    compute_undelegations-Leaves 21 delegations "ujoe" (omega arith) (omega arith) (omega arith)

abbrev removed : Delegation
removed = record { validator = "v3"; amount = 40; denom = "ujoe" }

compute_removal_total_example :
    (rs : List Redelegation) × (compute_redelegations_for_removal removed delegations "ujoe"
      ≡ ok rs)
    × (moved rs ≡ 40)
compute_removal_total_example =
    compute_removal_total removed delegations "ujoe" (omega arith) (omega arith)

compute_removal-Fills_example :
    (rs : List Redelegation) × (compute_redelegations_for_removal removed delegations "ujoe"
      ≡ ok rs)
    × Fills "v3" 101 delegations rs
compute_removal-Fills_example =
    compute_removal-Fills removed delegations "ujoe" (omega arith) (omega arith)

mint_keeps_ratio_example : 161 * (120 + 7) ≤ (161 + 10) * 120
unfolding compute_mint_amount sum_amounts sum_from fit
mint_keeps_ratio_example = mint_keeps_ratio chain-IsCosmwasm 120 10 delegations 7 refl

unbond_keeps_ratio_example : (40 ≤ 161) × (161 * (120 - 30) ≤ (161 - 40) * 120)
unfolding compute_unbond_amount sum_amounts sum_from fit
unbond_keeps_ratio_example =
    unbond_keeps_ratio chain-IsCosmwasm 120 30 delegations 40 (omega arith) refl

abbrev target : Delegation → ℕ
target d = 80

abbrev moves : List Redelegation
moves = record { src = "v1"; dst = "v2"; amount = 19; denom = "ujoe" } ∷ []

rebalancing_moves_example :
    All (λ (r : Redelegation). IsActive ("v1" ∷ "v2" ∷ []) r.dst) moves
    × (moved moves
        ≡ min
            (surpluses ("v1" ∷ "v2" ∷ []) 5 target 1 0 delegations)
            (deficits ("v1" ∷ "v2" ∷ []) 5 target 1 0 delegations))
unfolding compute_redelegations_for_rebalancing sum_amounts sum_from fit div_word rem_word
    sort_delegations classify match_loop
rebalancing_moves_example =
    rebalancing_moves ("v1" ∷ "v2" ∷ []) delegations 5 (λ d. ok (target d)) {rs = moves} target
      (λ d. refl) refl

rebalancing_within_targets_example : (19 ≤ 19) × (0 ≤ 0)
unfolding compute_redelegations_for_rebalancing sum_amounts sum_from fit div_word rem_word
    sort_delegations classify match_loop
rebalancing_within_targets_example =
    rebalancing_within_targets ("v1" ∷ "v2" ∷ []) delegations 5 (λ d. ok (target d)) {rs = moves}
      target "v1" (λ d. refl) refl

reconcile_batches_short_example : reconcile_batches batches 100 ≡ err panic
reconcile_batches_short_example = reconcile_batches_short batches 100 (inr (inl (omega arith)))
