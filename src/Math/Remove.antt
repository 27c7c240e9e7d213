-- ===== src/Math/Remove.antt =====
-- `compute_redelegations_for_removal`: the whole delegation moves, and no validator is filled above
-- its even share.
use joe_liquid_staking.Prelude.{
  ℕ, ◌+◌, ◌-◌, ◌/◌, ◌%◌, ◌≤◌, ◌<◌, min, ◌≡◌, refl, String, List, [], ◌∷◌, ok, arith, length, total,
  inl, inr, Bool-cases, ltb, ◌==◌, panic, fit_eq, div_word_eq, rem_word_eq, u128_mod, if◌then◌else◌,
}
use joe_liquid_staking.Types.{Delegation, Redelegation}
use joe_liquid_staking.Math.{
  share_at, redelegate_amount, removal_loop, compute_redelegations_for_removal,
}
use joe_liquid_staking.Math.Even.{staked, sum_amounts_eq, shares, shares_total, share_bounds}

abbrev pub moved : List Redelegation → ℕ
moved rs = total (λ r. r.amount) rs

-- What is missing below the shares.
deficit : ℕ → ℕ → ℕ → List Delegation → ℕ
deficit per remainder i [] = 0
deficit per remainder i (d ∷ ds) =
    (share_at per remainder i - d.amount) + deficit per remainder (i + 1) ds

shares-le-deficit :
    (per remainder i : ℕ) (ds : List Delegation)
    → shares per remainder i (length ds) ≤ deficit per remainder i ds + staked ds
unfolding deficit shares
shares-le-deficit per remainder i [] = omega arith
shares-le-deficit per remainder i (d ∷ ds) =
    omega (arith, shares-le-deficit per remainder (i + 1) ds)

redelegate_amount_eq :
    (share available : ℕ) (d : Delegation)
    → redelegate_amount share available d ≡ min (share - d.amount) available
unfolding redelegate_amount
redelegate_amount_eq share available d = ground arith

module _ (per remainder : ℕ) (src denom : String) where
  removal_loop_total :
      (i available : ℕ) (ds : List Delegation)
      → moved (removal_loop per remainder src denom i available ds)
        ≡ min (deficit per remainder i ds) available
  unfolding removal_loop deficit
  removal_loop_total i available [] = omega arith
  removal_loop_total i available (d ∷ ds) =
      let share = share_at per remainder i in
      let amount = redelegate_amount share available d in
      ground (
        arith,
        redelegate_amount_eq share available d,
        removal_loop_total (i + 1) (available - amount) ds,
      )

-- The call with its sums and quotients worked out.
compute_removal_eq :
    (r : Delegation) (ds : List Delegation) (denom : String)
    → 0 < length ds
    → staked ds + r.amount < u128_mod
    → let all = staked ds + r.amount in
      compute_redelegations_for_removal r ds denom
      ≡ ok (removal_loop (all / length ds) (all % length ds) r.validator denom 0 r.amount ds)
unfolding compute_redelegations_for_removal
compute_removal_eq r ds denom some_validator fits =
    let n = length ds in
    let all = staked ds + r.amount in
    rw (sum_amounts_eq ds (omega arith), fit_eq u128_mod panic all fits)
      (rw (div_word_eq all n some_validator, rem_word_eq all n some_validator) refl)

-- Whenever another validator is left and the delegations with the removed one fit a u128, the
-- redelegations are computed and move exactly the removed validator's delegation.
pub compute_removal_total :
    (r : Delegation) (ds : List Delegation) (denom : String)
    → 0 < length ds
    → staked ds + r.amount < u128_mod
    → (rs : List Redelegation) × (compute_redelegations_for_removal r ds denom ≡ ok rs)
      × (moved rs ≡ r.amount)
compute_removal_total r ds denom some_validator fits =
    let all = staked ds + r.amount in
    let per = all / length ds in
    let remainder = all % length ds in
    (
      _,
      compute_removal_eq r ds denom some_validator fits,
      omega (
        arith,
        removal_loop_total per remainder r.validator denom 0 r.amount ds,
        shares-le-deficit per remainder 0 ds,
        shares_total all (length ds) some_validator,
      ),
    )

-- Redelegations from `src` into a list of delegations in order, each into a delegation of its own,
-- of a positive amount that fills it to at most `ceiling`.
pub data Fills (src : String) (ceiling : ℕ) : List Delegation → List Redelegation → Type 0 where
  stop : (ds : List Delegation) → Fills src ceiling ds []
  keep :
      {ds : List Delegation} {rs : List Redelegation} (d : Delegation)
      → Fills src ceiling ds rs
      → Fills src ceiling (d ∷ ds) rs
  put_into :
      {ds : List Delegation} {rs : List Redelegation} (d : Delegation) (r : Redelegation)
      → r.src ≡ src
      → r.dst ≡ d.validator
      → 0 < r.amount
      → d.amount + r.amount ≤ ceiling
      → Fills src ceiling ds rs
      → Fills src ceiling (d ∷ ds) (r ∷ rs)

Fills-rest :
    (src : String) (ceiling test : ℕ) (ds : List Delegation) (more : List Redelegation)
    → Fills src ceiling ds more
    → Fills src ceiling ds (if test == 0 then [] else more)
Fills-rest src ceiling test ds more h = elim (Bool-cases (test == 0)) [
  | inl e ↦ rw e (stop ds)
  | inr e ↦ rw e h
]

module _ (per remainder : ℕ) (src denom : String) where
  removal_loop-Fills :
      (i available : ℕ) (ds : List Delegation)
      → Fills src (per + 1) ds (removal_loop per remainder src denom i available ds)
  unfolding removal_loop
  removal_loop-Fills i available [] = stop []
  removal_loop-Fills i available (d ∷ ds) =
      let share = share_at per remainder i in
      let amount = redelegate_amount share available d in
      let rest =
        Fills-rest src (per + 1) (available - amount) ds _
          (removal_loop-Fills (i + 1) (available - amount) ds) in
      elim (Bool-cases (ltb 0 amount)) [
        | inl e ↦ rw e (
            put_into d _ refl refl (ground arith)
              (ground (arith, redelegate_amount_eq share available d, share_bounds per remainder i))
              rest)
        | inr e ↦ rw e (keep d rest)
      ]

-- On the same conditions each redelegation leaves the removed validator for a remaining one, of its
-- own in the order of the list, with a positive amount that fills it to at most one above the whole
-- part of the even share.
pub compute_removal-Fills :
    (r : Delegation) (ds : List Delegation) (denom : String)
    → 0 < length ds
    → staked ds + r.amount < u128_mod
    → (rs : List Redelegation) × (compute_redelegations_for_removal r ds denom ≡ ok rs)
      × Fills r.validator ((staked ds + r.amount) / length ds + 1) ds rs
compute_removal-Fills r ds denom some_validator fits = (
  _,
  compute_removal_eq r ds denom some_validator fits,
  removal_loop-Fills _ _ r.validator denom 0 r.amount ds,
)
