-- ===== src/Math/Undelegate.antt =====
-- `compute_undelegations`: the undelegations add up to the amount to unbond, and each leaves its
-- validator at least the even share.
use joe_liquid_staking.Prelude.{
  ℕ, ◌+◌, ◌-◌, ◌/◌, ◌%◌, ◌≤◌, ◌<◌, min, ◌≡◌, refl, String, List, [], ◌∷◌, ok, arith, length, total,
  inl, inr, Bool-cases, ltb, ◌==◌, sub_word, div_word, rem_word, sub_word_eq, div_word_eq,
  rem_word_eq, bind_ok, ok-injective, sub_word-eq-ok, div_word-eq-ok, rem_word-eq-ok, u128_mod,
  if◌then◌else◌,
}
use joe_liquid_staking.Types.{Delegation, Undelegation}
use joe_liquid_staking.Math.{
  share_at, sum_amounts, undelegate_amount, undelegate_loop, compute_undelegations,
}
use joe_liquid_staking.Math.Even.{
  staked, sum_amounts_eq, sum_amounts-eq-ok, shares, shares_total, share_bounds,
}

abbrev pub undelegated : List Undelegation → ℕ
undelegated us = total (λ u. u.amount) us

-- What stands above the shares.
excess : ℕ → ℕ → ℕ → List Delegation → ℕ
excess per remainder i [] = 0
excess per remainder i (d ∷ ds) =
    (d.amount - share_at per remainder i) + excess per remainder (i + 1) ds

staked-le-excess :
    (per remainder i : ℕ) (ds : List Delegation)
    → staked ds ≤ excess per remainder i ds + shares per remainder i (length ds)
unfolding excess shares
staked-le-excess per remainder i [] = omega arith
staked-le-excess per remainder i (d ∷ ds) = omega (arith, staked-le-excess per remainder (i + 1) ds)

undelegate_amount_eq :
    (share available : ℕ) (d : Delegation)
    → undelegate_amount share available d ≡ min (d.amount - share) available
unfolding undelegate_amount
undelegate_amount_eq share available d = ground arith

undelegate_loop_total :
    (per remainder : ℕ) (denom : String) (i available : ℕ) (ds : List Delegation)
    → undelegated (undelegate_loop per remainder denom i available ds)
      ≡ min (excess per remainder i ds) available
unfolding undelegate_loop excess
undelegate_loop_total per remainder denom i available [] = omega arith
undelegate_loop_total per remainder denom i available (d ∷ ds) =
    let share = share_at per remainder i in
    let amount = undelegate_amount share available d in
    ground (
      arith,
      undelegate_amount_eq share available d,
      undelegate_loop_total per remainder denom (i + 1) (available - amount) ds,
    )

-- The call with its sums and quotients worked out.
pub compute_undelegations_eq :
    (x : ℕ) (ds : List Delegation) (denom : String)
    → 0 < length ds
    → staked ds < u128_mod
    → x ≤ staked ds
    → let rest = staked ds - x in
      compute_undelegations x ds denom
      ≡ ok (undelegate_loop (rest / length ds) (rest % length ds) denom 0 x ds)
unfolding compute_undelegations
compute_undelegations_eq x ds denom some_validator fits covered =
    let n = length ds in
    rw (sum_amounts_eq ds fits, sub_word_eq (staked ds) x covered)
      (rw
        (div_word_eq (staked ds - x) n some_validator, rem_word_eq (staked ds - x) n some_validator)
        refl)

undelegate_loop_all :
    (x : ℕ) (ds : List Delegation) (denom : String)
    → 0 < length ds
    → x ≤ staked ds
    → let rest = staked ds - x in
      undelegated (undelegate_loop (rest / length ds) (rest % length ds) denom 0 x ds) ≡ x
undelegate_loop_all x ds denom some_validator covered =
    let rest = staked ds - x in
    let per = rest / length ds in
    let remainder = rest % length ds in
    omega (
      arith,
      undelegate_loop_total per remainder denom 0 x ds,
      staked-le-excess per remainder 0 ds,
      shares_total rest (length ds) some_validator,
    )

-- Whenever there is a validator, the delegations add up to at least the amount to unbond, and their
-- sum fits a u128, the undelegations are computed and add up to exactly the amount to unbond.
pub compute_undelegations_total :
    (x : ℕ) (ds : List Delegation) (denom : String)
    → 0 < length ds
    → staked ds < u128_mod
    → x ≤ staked ds
    → (us : List Undelegation) × (compute_undelegations x ds denom ≡ ok us) × (undelegated us ≡ x)
compute_undelegations_total x ds denom some_validator fits covered = (
  _,
  compute_undelegations_eq x ds denom some_validator fits covered,
  undelegate_loop_all x ds denom some_validator covered,
)

-- Whatever is computed adds up to the amount to unbond.
pub compute_undelegations-eq-ok :
    (x : ℕ) (ds : List Delegation) (denom : String) (us : List Undelegation)
    → compute_undelegations x ds denom ≡ ok us
    → undelegated us ≡ x
unfolding compute_undelegations
compute_undelegations-eq-ok x ds denom us h = bind_ok (sum_amounts ds) _ h λ t et h1.
    bind_ok (sub_word t x) _ h1 λ rest er h2. bind_ok (div_word rest (length ds)) _ h2 λ per ep h3.
      bind_ok (rem_word rest (length ds)) _ h3 λ remainder em h4.
        let sum = sum_amounts-eq-ok ds et in
        let (left, covered) = sub_word-eq-ok t x {y = rest} er in
        let (pos, per_eq) = div_word-eq-ok rest (length ds) per ep in
        let rem_eq = (rem_word-eq-ok rest (length ds) remainder em).1 in
        let rest_eq : rest ≡ staked ds - x = omega (arith, sum, left) in
        rw (← ok-injective h4) (
          rw (per_eq, rem_eq)
            (rw rest_eq (undelegate_loop_all x ds denom pos (omega (arith, sum, covered)))))

-- Undelegations taken from a list of delegations in order, each from a delegation of its own, of a
-- positive amount that leaves at least `floor`.
pub data Leaves (floor : ℕ) : List Delegation → List Undelegation → Type 0 where
  done : Leaves floor [] []
  stop : (ds : List Delegation) → Leaves floor ds []
  keep :
      {ds : List Delegation} {us : List Undelegation} (d : Delegation)
      → Leaves floor ds us
      → Leaves floor (d ∷ ds) us
  take_from :
      {ds : List Delegation} {us : List Undelegation} (d : Delegation) (u : Undelegation)
      → u.validator ≡ d.validator
      → 0 < u.amount
      → floor + u.amount ≤ d.amount
      → Leaves floor ds us
      → Leaves floor (d ∷ ds) (u ∷ us)

Leaves-rest :
    (floor test : ℕ) (ds : List Delegation) (more : List Undelegation)
    → Leaves floor ds more
    → Leaves floor ds (if test == 0 then [] else more)
Leaves-rest floor test ds more h = elim (Bool-cases (test == 0)) [
  | inl e ↦ rw e (stop ds)
  | inr e ↦ rw e h
]

undelegate_loop-Leaves :
    (per remainder : ℕ) (denom : String) (i available : ℕ) (ds : List Delegation)
    → Leaves per ds (undelegate_loop per remainder denom i available ds)
unfolding undelegate_loop
undelegate_loop-Leaves per remainder denom i available [] = done
undelegate_loop-Leaves per remainder denom i available (d ∷ ds) =
    let share = share_at per remainder i in
    let amount = undelegate_amount share available d in
    let rest =
      Leaves-rest per (available - amount) ds _
        (undelegate_loop-Leaves per remainder denom (i + 1) (available - amount) ds) in
    elim (Bool-cases (ltb 0 amount)) [
      | inl e ↦ rw e (
          take_from d _ refl (ground arith)
            (ground (arith, undelegate_amount_eq share available d, share_bounds per remainder i))
            rest)
      | inr e ↦ rw e (keep d rest)
    ]

-- On the same conditions each undelegation is of a positive amount, from a delegation of its own in
-- the order of the list, and leaves that validator at least the whole part of the even share of
-- what stays delegated.
pub compute_undelegations-Leaves :
    (x : ℕ) (ds : List Delegation) (denom : String)
    → 0 < length ds
    → staked ds < u128_mod
    → x ≤ staked ds
    → (us : List Undelegation) × (compute_undelegations x ds denom ≡ ok us)
      × Leaves ((staked ds - x) / length ds) ds us
compute_undelegations-Leaves x ds denom some_validator fits covered = (
  _,
  compute_undelegations_eq x ds denom some_validator fits covered,
  undelegate_loop-Leaves _ _ denom 0 x ds,
)
