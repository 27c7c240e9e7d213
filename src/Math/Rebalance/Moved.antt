-- ===== src/Math/Rebalance/Moved.antt =====
-- How much `compute_redelegations_for_rebalancing` moves in all.
use joe_liquid_staking.Prelude.{
  ℕ, ◌+◌, ◌-◌, ◌%◌, min, ◌≡◌, String, List, [], ◌∷◌, arith, length, All, any, Result, ok,
  ok-injective, leb, ltb, ◌&&◌, refl, if◌then◌else◌, str_eq,
}
use joe_liquid_staking.Types.{Delegation, Redelegation}
use joe_liquid_staking.Math.{
  Surplus, classify, sort_delegations, compute_redelegations_for_rebalancing,
}
use joe_liquid_staking.Math.Even.{staked}
use joe_liquid_staking.Math.Remove.{moved}
use joe_liquid_staking.Math.Moves.{match_loop_total, match_loop-All}
use joe_liquid_staking.Math.Rebalance.{
  IsActive, sort-cons-eq-ok, sort-All, target_eq, rebalancing-eq-ok,
}

-- The surpluses and the deficits above the least difference together, against the same targets; only
-- an active validator's deficit counts.
module _ (active : List String) (least : ℕ) (target : Delegation → ℕ) (remainder : ℕ) where
  abbrev pub surpluses : ℕ → List Delegation → ℕ
  surpluses i [] = 0
  surpluses i (d ∷ ds) =
      let over = d.amount - (target d + (if leb (i + 1) remainder then 1 else 0)) in
      (if ltb least over then over else 0) + surpluses (i + 1) ds

  abbrev pub deficits : ℕ → List Delegation → ℕ
  deficits i [] = 0
  deficits i (d ∷ ds) =
      let lack = (target d + (if leb (i + 1) remainder then 1 else 0)) - d.amount in
      (if any (λ a. str_eq a d.validator) active && ltb least lack then lack else 0)
      + deficits (i + 1) ds

classify-staked_src :
    (active : List String) (least : ℕ) (d : Delegation) (t : ℕ) (rest : Surplus)
    → staked (classify active least d t rest).src_delegations
      ≡ (if ltb least (d.amount - t) then d.amount - t else 0) + staked rest.src_delegations
unfolding classify
classify-staked_src active least d t rest = ground arith

classify-staked_dst :
    (active : List String) (least : ℕ) (d : Delegation) (t : ℕ) (rest : Surplus)
    → staked (classify active least d t rest).dst_delegations
      ≡ (if any (λ a. str_eq a d.validator) active && ltb least (t - d.amount)
          then t - d.amount
          else 0)
        + staked rest.dst_delegations
unfolding classify
classify-staked_dst active least d t rest = ground arith

module _ (active : List String) (least remainder : ℕ) (load_target : Delegation → Result ℕ)
    (target : Delegation → ℕ) (loads : (d : Delegation) → load_target d ≡ ok (target d)) where
  sort-staked :
      (i : ℕ) (ds : List Delegation) (s : Surplus)
      → sort_delegations active least remainder load_target i ds ≡ ok s
      → (staked s.src_delegations ≡ surpluses active least target remainder i ds)
        × (staked s.dst_delegations ≡ deficits active least target remainder i ds)
  unfolding sort_delegations
  sort-staked i [] s h = rw (← ok-injective h) (refl, refl)
  sort-staked i (d ∷ ds) s h =
      let (t, rest, et, er, es) = sort-cons-eq-ok active least remainder load_target i d ds s h in
      let goal = t + (if leb (i + 1) remainder then 1 else 0) in
      let ih = sort-staked (i + 1) ds rest er in
      rw es (
        rw (← target_eq active least remainder load_target target loads d et) (
          rw (← ih.0) (classify-staked_src active least d goal rest),
          rw (← ih.1) (classify-staked_dst active least d goal rest),
        ))

module _ (active : List String) (ds : List Delegation) (least : ℕ)
    (load_target : Delegation → Result ℕ) where
  -- Where the targets load as `target`, every redelegation of a successful call goes to an active
  -- validator, and what the moves add up to is all of the surpluses or all of the deficits, whichever
  -- is less. A surplus is what a delegation has above its target, and a deficit what the delegation
  -- of an active validator lacks below it, where that is more than the least difference; the target
  -- of each of the first `staked % active` positions counts one more.
  pub rebalancing_moves :
      {rs : List Redelegation} (target : Delegation → ℕ)
      → ((d : Delegation) → load_target d ≡ ok (target d))
      → compute_redelegations_for_rebalancing active ds least load_target ≡ ok rs
      → All (λ (r : Redelegation). IsActive active r.dst) rs
        × (moved rs
            ≡ min
                (surpluses active least target (staked ds % length active) 0 ds)
                (deficits active least target (staked ds % length active) 0 ds))
  rebalancing_moves target loads h =
      let (s, es, er) = rebalancing-eq-ok active ds least load_target h in
      let sums = sort-staked active least _ load_target target loads 0 ds s es in
      rw er (
        match_loop-All (IsActive active) _ s.src_delegations s.dst_delegations
            (sort-All active least _ load_target 0 ds s es),
        rw (← sums.0, ← sums.1)
            (match_loop_total _ s.src_delegations s.dst_delegations (omega arith)),
      )
