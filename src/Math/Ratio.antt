-- ===== src/Math/Ratio.antt =====
-- The exchange ratio: bonding and unbonding never lower what a share of the others is worth, and a
-- bond that is unbonded at once gives no more than was put in.
use joe_liquid_staking.Prelude.{
  ℕ, ◌+◌, ◌-◌, ◌*◌, ◌/◌, ◌≤◌, ◌<◌, ◌≡◌, ◌⊎◌, List, ok, arith, inl, inr, fit-eq-ok, fit_eq, u128_mod,
  panic, bind_parts,
}
use joe_liquid_staking.Types.{Cosmwasm, IsCosmwasm, Delegation}
use joe_liquid_staking.Math.{sum_amounts, compute_mint_amount, compute_unbond_amount}
use joe_liquid_staking.Math.Even.{staked, sum_amounts-eq-ok}
use native.Mathlib.Nat.{div-mul-le_self, div-le_of_le-mul, mul-le-mul_left, mul_comm, mul-sub}

ratio_rest : (s t b u : ℕ) → b ≤ t → u ≤ s → u * t ≤ s * b → s * (t - b) ≤ (s - u) * t
ratio_rest s t b u within covered le =
    rw (mul-sub s t b, mul_comm (s - u) t, mul-sub t s u) (omega (arith, mul-le-mul_left s within))

module _ {cw : Cosmwasm} (law : IsCosmwasm cw) where
  -- A ratio that is computed has a denominator and is the quotient rounded down.
  pub multiply_ratio-eq-ok :
      (a n d q : ℕ) → cw.multiply_ratio a n d ≡ ok q → (0 < d) × (q ≡ a * n / d) × (q < u128_mod)
  multiply_ratio-eq-ok a n d q h =
      ground (arith, law.multiply_ratio_lem a n d, fit-eq-ok u128_mod panic (a * n / d) {y = q})

  pub multiply_ratio_eq :
      (a n d : ℕ) → 0 < d → a * n / d < u128_mod → cw.multiply_ratio a n d ≡ ok (a * n / d)
  multiply_ratio_eq a n d h k =
      ground (arith, law.multiply_ratio_lem a n d, fit_eq u128_mod panic (a * n / d))

  pub compute_mint-eq-ok :
      (supply x : ℕ) (ds : List Delegation) (m : ℕ)
      → compute_mint_amount cw supply x ds ≡ ok m
      → ((staked ds ≡ 0) × (m ≡ x)) ⊎ ((0 < staked ds) × (m ≡ supply * x / staked ds))
  unfolding compute_mint_amount
  compute_mint-eq-ok supply x ds m h =
      let (t, e, h') = bind_parts (sum_amounts ds) _ h in
      ground (arith, sum_amounts-eq-ok ds e, multiply_ratio-eq-ok supply x t m)

  compute_unbond-eq-ok :
      (supply burn : ℕ) (ds : List Delegation) (u : ℕ)
      → compute_unbond_amount cw supply burn ds ≡ ok u
      → (0 < supply) × (u ≡ staked ds * burn / supply)
  unfolding compute_unbond_amount
  compute_unbond-eq-ok supply burn ds u h =
      let (t, e, h') = bind_parts (sum_amounts ds) _ h in
      ground (arith, sum_amounts-eq-ok ds e, multiply_ratio-eq-ok t burn supply u)

  mint_le :
      (supply x : ℕ) (ds : List Delegation) (m : ℕ)
      → compute_mint_amount cw supply x ds ≡ ok m
      → m * staked ds ≤ supply * x
  mint_le supply x ds m h = elim (compute_mint-eq-ok supply x ds m h) [
    | inl (e, _) ↦ rw e (omega arith)
    | inr (_, e) ↦ rw e (div-mul-le_self (supply * x) (staked ds))
  ]

  unbond_le :
      (supply burn : ℕ) (ds : List Delegation) (u : ℕ)
      → compute_unbond_amount cw supply burn ds ≡ ok u
      → u * supply ≤ staked ds * burn
  unbond_le supply burn ds u h =
      rw (compute_unbond-eq-ok supply burn ds u h).1 (div-mul-le_self (staked ds * burn) supply)

  -- Minting what `compute_mint_amount` answers for an amount on a list of delegations, and adding
  -- the amount to those delegations, does not lower what they hold for each share: the ratio
  -- after it, (staked + x) / (supply + minted), is at least the one before it, staked / supply, as
  -- the products across say it.
  pub mint_keeps_ratio :
      (supply x : ℕ) (ds : List Delegation) (m : ℕ)
      → compute_mint_amount cw supply x ds ≡ ok m
      → staked ds * (supply + m) ≤ (staked ds + x) * supply
  mint_keeps_ratio supply x ds m h = omega (arith, mint_le supply x ds m h)

  -- Burning at most the supply and unbonding what `compute_unbond_amount` answers does not lower
  -- the ratio of the shares that stay, and unbonds no more than is staked.
  pub unbond_keeps_ratio :
      (supply burn : ℕ) (ds : List Delegation) (u : ℕ)
      → burn ≤ supply
      → compute_unbond_amount cw supply burn ds ≡ ok u
      → (u ≤ staked ds) × (staked ds * (supply - burn) ≤ (staked ds - u) * supply)
  unbond_keeps_ratio supply burn ds u within h =
      let (pos, e) = compute_unbond-eq-ok supply burn ds u h in
      let le = unbond_le supply burn ds u h in
      let covered : u ≤ staked ds = rw e (
        div-le_of_le-mul supply
          (rw (mul_comm supply (staked ds)) (mul-le-mul_left (staked ds) within))) in
      (covered, ratio_rest (staked ds) supply burn u within covered le)

  -- Whoever bonds and at once burns the minted shares, all else the same, gets back at most the
  -- amount put in.
  pub mint_then_unbond :
      (supply x m u : ℕ) (before after : List Delegation)
      → staked after ≡ staked before + x
      → compute_mint_amount cw supply x before ≡ ok m
      → compute_unbond_amount cw (supply + m) m after ≡ ok u
      → u ≤ x
  mint_then_unbond supply x m u before after grown minted unbonded =
      let e = (compute_unbond-eq-ok (supply + m) m after u unbonded).1 in
      rw (e, grown)
        (div-le_of_le-mul (supply + m) (omega (arith, mint_le supply x before m minted)))
