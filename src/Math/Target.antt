-- ===== src/Math/Target.antt =====
-- The target delegation by mining power: `compute_target_delegation_from_mining_power`.
use joe_liquid_staking.Prelude.{
  ℕ, ◌*◌, ◌/◌, ◌≤◌, ◌<◌, ◌≡◌, ok, panic, arith, bind_ok, guard-eq-ok, leb, leb→le, fit-eq-ok,
  u128_mod,
}
use joe_liquid_staking.Types.{Cosmwasm, IsCosmwasm, decimal_fractional}
use joe_liquid_staking.Math.{compute_target_delegation_from_mining_power}
use native.Mathlib.Nat.{div-le_of_le-mul, mul-le-mul_left, mul_comm}

scaled-le : (a b n : ℕ) → a ≤ b → n * a / b ≤ n
scaled-le a b n h = div-le_of_le-mul b (rw (mul_comm b n) (mul-le-mul_left n h))

module _ {cw : Cosmwasm} (law : IsCosmwasm cw) where
  from_ratio-le :
      (n d q : ℕ) → n ≤ d → cw.from_ratio n d ≡ ok q → (0 < d) × (q ≤ decimal_fractional)
  from_ratio-le n d q le h =
      let e = rw (law.from_ratio_lem n d) at h in
      let bound = scaled-le n d decimal_fractional le in
      ground (
        arith,
        fit-eq-ok u128_mod panic (n * decimal_fractional / d) {y = q},
        mul_comm decimal_fractional n,
        bound,
      )

  -- A target that is computed is at most all that is delegated, the validator's power is at most
  -- the total, and the total is not zero: as long as no mining power was given, there is no target.
  pub target_within :
      (delegated power total target : ℕ)
      → compute_target_delegation_from_mining_power cw delegated power total ≡ ok target
      → (0 < total) × (power ≤ total) × (target ≤ delegated)
  unfolding compute_target_delegation_from_mining_power
  target_within delegated power total target h =
      let (within, h) = guard-eq-ok (leb power total) _ _ h in
      let le = leb→le power total within in
      bind_ok (cw.from_ratio power total) _ h λ ratio er h.
        let (some_power, bound) = from_ratio-le power total ratio le er in
        let e =
          (fit-eq-ok u128_mod panic (delegated * ratio / decimal_fractional) {y = target}
            (rw (law.mul_decimal_lem ratio delegated) at h)).0 in
        (some_power, le, rw e (scaled-le ratio decimal_fractional delegated bound))
