-- ===== src/Math/Even.antt =====
-- The sum of the delegations as a total, and what the even shares add up to.
use joe_liquid_staking.Prelude.{
  ℕ, zero, suc, ◌+◌, ◌-◌, ◌*◌, ◌/◌, ◌%◌, ◌≤◌, ◌<◌, min, ◌≡◌, List, [], ◌∷◌, ok, arith, total,
  add128, fit_eq, fit-eq-ok, bind_parts, u128_mod, panic,
}
use joe_liquid_staking.Types.{Delegation}
use joe_liquid_staking.Math.{sum_from, sum_amounts, share_at}
use native.Mathlib.Nat.{div-add-mod, mod-lt}

-- The amount delegated in all.
abbrev pub staked : List Delegation → ℕ
staked ds = total (λ d. d.amount) ds

sum_from_eq :
    (acc : ℕ) (ds : List Delegation)
    → acc + staked ds < u128_mod
    → sum_from acc ds ≡ ok (acc + staked ds)
unfolding sum_from
sum_from_eq acc [] h = ground arith
sum_from_eq acc (d ∷ ds) h =
    ground (arith, fit_eq u128_mod panic (acc + d.amount), sum_from_eq (acc + d.amount) ds)

sum_from-eq-ok :
    (acc : ℕ) (ds : List Delegation) {t : ℕ} → sum_from acc ds ≡ ok t → t ≡ acc + staked ds
unfolding sum_from
sum_from-eq-ok acc [] h = ground arith
sum_from-eq-ok acc (d ∷ ds) h =
    let (acc', e, h') = bind_parts (add128 acc d.amount) _ h in
    omega (arith, sum_from-eq-ok acc' ds h', (fit-eq-ok u128_mod panic (acc + d.amount) e).0)

pub sum_amounts_eq : (ds : List Delegation) → staked ds < u128_mod → sum_amounts ds ≡ ok (staked ds)
unfolding sum_amounts
sum_amounts_eq ds h = ground (arith, sum_from_eq 0 ds)

pub sum_amounts-eq-ok : (ds : List Delegation) {t : ℕ} → sum_amounts ds ≡ ok t → t ≡ staked ds
unfolding sum_amounts
sum_amounts-eq-ok ds h = omega (arith, sum_from-eq-ok 0 ds h)

-- The sum of the shares of `n` positions from `i` on.
unfoldable pub shares : ℕ → ℕ → ℕ → ℕ → ℕ
shares per remainder i zero = 0
shares per remainder i (suc n) = share_at per remainder i + shares per remainder (i + 1) n

shares_closed : (per remainder i n : ℕ) → shares per remainder i n ≡ n * per + min n (remainder - i)
unfolding shares share_at
shares_closed per remainder i zero = omega arith
shares_closed per remainder i (suc n) = ground (arith, shares_closed per remainder (i + 1) n)

-- The shares of a total over `n` positions add up to the total.
pub shares_total : (t n : ℕ) → 0 < n → shares (t / n) (t % n) 0 n ≡ t
shares_total t n h = omega (arith, shares_closed (t / n) (t % n) 0 n, div-add-mod t n, mod-lt t h)

pub share_bounds :
    (per remainder i : ℕ) → (per ≤ share_at per remainder i) × (share_at per remainder i ≤ per + 1)
unfolding share_at
share_bounds per remainder i = ground arith
