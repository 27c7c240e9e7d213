-- ===== src/Math.antt =====
-- contracts/hub/src/math.rs: minting and unbonding ratios, the (re/un)delegations that even out the
-- validators, and the reconciliation of batches. `denom: &str` and `&[Delegation]` are arguments
-- here too; `println!` is left out. Sums of u128 panic on overflow; a target `per + 1` is at most
-- the sum that it divides, so it needs no test.
pub mod Even
pub mod Undelegate
pub mod Reconcile
pub mod Rebalance
pub mod Moves
pub mod Remove
pub mod Ratio
pub mod Target
use joe_liquid_staking.Prelude.{
  ℕ, zero, suc, ◌+◌, ◌-◌, min, String, true, List, [], ◌∷◌, Result, ok, generic_err, ◌>>=◌, ◌>>◌,
  guard, if◌then◌else◌, ltb, leb, ◌==◌, ◌&&◌, length, any, str_eq, add128, sub_word, div_word,
  rem_word,
}
use joe_liquid_staking.Types.{Batch, Cosmwasm, Delegation, Undelegation, Redelegation}

-- `current_delegations.iter().map(|d| d.amount).sum()`, from an accumulator.
unfoldable pub sum_from : ℕ → List Delegation → Result ℕ
sum_from acc [] = ok acc
sum_from acc (d ∷ ds) = do acc' ← add128 acc d.amount; sum_from acc' ds

unfoldable pub sum_amounts : List Delegation → Result ℕ
unfolding sum_from
sum_amounts ds = sum_from 0 ds

unfoldable pub compute_mint_amount : Cosmwasm → ℕ → ℕ → List Delegation → Result ℕ
compute_mint_amount cw usteak_supply native_to_bond ds = do
  native_bonded ← sum_amounts ds
  if native_bonded == 0
      then ok native_to_bond
      else cw.multiply_ratio usteak_supply native_to_bond native_bonded

unfoldable pub compute_unbond_amount : Cosmwasm → ℕ → ℕ → List Delegation → Result ℕ
compute_unbond_amount cw usteak_supply usteak_to_burn ds = do
  native_bonded ← sum_amounts ds
  cw.multiply_ratio native_bonded usteak_to_burn usteak_supply

-- The even share of the validator at position `i`: the first `remainder` ones get one more.
unfoldable pub share_at : ℕ → ℕ → ℕ → ℕ
share_at per remainder i = per + (if leb (i + 1) remainder then 1 else 0)

-- What one round of the undelegation loop takes from a delegation, of what is still available.
unfoldable pub undelegate_amount : ℕ → ℕ → Delegation → ℕ
undelegate_amount share available d =
    min (if ltb d.amount share then 0 else d.amount - share) available

-- The loop of `compute_undelegations`; its `break` ends the list.
unfoldable pub undelegate_loop : ℕ → ℕ → String → ℕ → ℕ → List Delegation → List Undelegation
unfolding share_at undelegate_amount
undelegate_loop per remainder denom i available [] = []
undelegate_loop per remainder denom i available (d ∷ ds) =
    let amount = undelegate_amount (share_at per remainder i) available d in
    let available' = available - amount in
    let more = undelegate_loop per remainder denom (i + 1) available' ds in
    let rest : List Undelegation = if available' == 0 then [] else more in
    if ltb 0 amount
    then record { validator = d.validator; amount = amount; denom = denom } ∷ rest
    else rest

unfoldable pub compute_undelegations : ℕ → List Delegation → String → Result (List Undelegation)
compute_undelegations native_to_unbond ds denom = do
  native_staked ← sum_amounts ds
  native_to_distribute ← sub_word native_staked native_to_unbond
  native_per_validator ← div_word native_to_distribute (length ds)
  remainder ← rem_word native_to_distribute (length ds)
  ok (undelegate_loop native_per_validator remainder denom 0 native_to_unbond ds)

unfoldable pub redelegate_amount : ℕ → ℕ → Delegation → ℕ
redelegate_amount share available d =
    min (if ltb share d.amount then 0 else share - d.amount) available

-- The loop of `compute_redelegations_for_removal`.
unfoldable pub removal_loop : ℕ → ℕ → String → String → ℕ → ℕ → List Delegation → List Redelegation
unfolding share_at redelegate_amount
removal_loop per remainder src denom i available [] = []
removal_loop per remainder src denom i available (d ∷ ds) =
    let amount = redelegate_amount (share_at per remainder i) available d in
    let available' = available - amount in
    let more = removal_loop per remainder src denom (i + 1) available' ds in
    let rest : List Redelegation = if available' == 0 then [] else more in
    if ltb 0 amount
    then record { src = src; dst = d.validator; amount = amount; denom = denom } ∷ rest
    else rest

unfoldable pub compute_redelegations_for_removal :
    Delegation → List Delegation → String → Result (List Redelegation)
compute_redelegations_for_removal delegation_to_remove ds denom = do
  native_staked ← sum_amounts ds
  native_to_distribute ← add128 native_staked delegation_to_remove.amount
  native_per_validator ← div_word native_to_distribute (length ds)
  remainder ← rem_word native_to_distribute (length ds)
  ok (
      removal_loop native_per_validator remainder delegation_to_remove.validator denom 0
        delegation_to_remove.amount ds)

unfoldable pub compute_target_delegation_from_mining_power : Cosmwasm → ℕ → ℕ → ℕ → Result ℕ
compute_target_delegation_from_mining_power cw total_delegated validator_power total_power = do
  guard (leb validator_power total_power)
      (generic_err "validator mining power cannot be greater than total mining power")
  ratio ← cw.from_ratio validator_power total_power
  cw.mul_decimal ratio total_delegated

-- The delegations to move from and those to move to, with the amounts as deltas.
pub record Surplus : Type 0 where
  pub src_delegations : List Delegation
  pub dst_delegations : List Delegation

-- One round of the sorting loop of `compute_redelegations_for_rebalancing`, in front of the later
-- rounds' result.
unfoldable pub classify : List String → ℕ → Delegation → ℕ → Surplus → Surplus
classify active min_difference d target rest =
    if ltb target d.amount
    then (if ltb min_difference (d.amount - target)
        then record rest {
          src_delegations = record d { amount = d.amount - target } ∷ rest.src_delegations;
        }
        else rest)
    else if ltb d.amount target
    then (if any (λ v. str_eq v d.validator) active && ltb min_difference (target - d.amount)
        then record rest {
          dst_delegations = record d { amount = target - d.amount } ∷ rest.dst_delegations;
        }
        else rest)
    else rest

module _ (active : List String) (min_difference remainder : ℕ)
    (load_target_delegation : Delegation → Result ℕ) where
  unfoldable pub sort_delegations : ℕ → List Delegation → Result Surplus
  unfolding classify
  sort_delegations i [] = ok (record { src_delegations = []; dst_delegations = [] })
  sort_delegations i (d ∷ ds) = do
    target ← load_target_delegation d
    native_for_validator ← add128 target (if leb (i + 1) remainder then 1 else 0)
    rest ← sort_delegations (i + 1) ds
    ok (classify active min_difference d native_for_validator rest)

-- One round of the matching loop moves the smaller head amount. A round removes a source, a target
-- or both, so that as many rounds as there are delegations in the two lists empty one of them.
unfoldable pub match_loop : ℕ → List Delegation → List Delegation → List Redelegation
match_loop zero srcs dsts = []
match_loop (suc rounds) [] dsts = []
match_loop (suc rounds) (s ∷ srcs) [] = []
match_loop (suc rounds) (s ∷ srcs) (d ∷ dsts) =
    let amount = min s.amount d.amount in
    let srcs' : List Delegation =
      if s.amount == amount then srcs else record s { amount = s.amount - amount } ∷ srcs in
    let dsts' : List Delegation =
      if d.amount == amount then dsts else record d { amount = d.amount - amount } ∷ dsts in
    record { src = s.validator; dst = d.validator; amount = amount; denom = s.denom }
    ∷ match_loop rounds srcs' dsts'

unfoldable pub compute_redelegations_for_rebalancing :
    List String → List Delegation → ℕ → (Delegation → Result ℕ) → Result (List Redelegation)
compute_redelegations_for_rebalancing active ds min_difference load_target_delegation = do
  native_staked ← sum_amounts ds
  native_per_validator ← div_word native_staked (length active)
  remainder ← rem_word native_staked (length active)
  surplus ← sort_delegations active min_difference remainder load_target_delegation 0 ds
  ok (
      match_loop (length surplus.src_delegations + length surplus.dst_delegations)
        surplus.src_delegations surplus.dst_delegations)

-- The loop of `reconcile_batches`.
unfoldable pub reconcile_loop : ℕ → ℕ → ℕ → List Batch → Result (List Batch)
unfolding share_at
reconcile_loop per remainder i [] = ok []
reconcile_loop per remainder i (b ∷ bs) = do
  unclaimed ← sub_word b.amount_unclaimed (share_at per remainder i)
  rest ← reconcile_loop per remainder (i + 1) bs
  ok (record b { amount_unclaimed = unclaimed; reconciled = true } ∷ rest)

unfoldable pub reconcile_batches : List Batch → ℕ → Result (List Batch)
reconcile_batches batches native_to_deduct = do
  native_per_batch ← div_word native_to_deduct (length batches)
  remainder ← rem_word native_to_deduct (length batches)
  reconcile_loop native_per_batch remainder 0 batches
