-- ===== src/Math/Rebalance.antt =====
-- How much `compute_redelegations_for_rebalancing` moves from and to each validator, and where to.
pub mod Moved
use joe_liquid_staking.Prelude.{
  ℕ, ◌+◌, ◌-◌, ◌%◌, ◌≤◌, min, ◌≡◌, String, List, [], ◌∷◌, true, arith, length, All, any, Result, ok,
  bind_ok, ok-injective, sym, ap, ◌∙◌, fit-eq-ok, add128, panic, u128_mod, rem_word, rem_word-eq-ok,
  div_word, leb, ltb, ◌&&◌, refl, if◌then◌else◌, str_eq,
}
use joe_liquid_staking.Types.{Delegation, Redelegation}
use joe_liquid_staking.Math.{
  Surplus, classify, sort_delegations, match_loop, sum_amounts,
  compute_redelegations_for_rebalancing,
}
use joe_liquid_staking.Math.Even.{staked, sum_amounts-eq-ok}
use joe_liquid_staking.Math.Remove.{moved}
use joe_liquid_staking.Math.Moves.{
  moved_from, moved_to, amount_of, match_loop_total, match_loop-moved_from, match_loop-moved_to,
  match_loop-All,
}
use native.Mathlib.Nat.{le_trans}

abbrev pub IsActive : List String → String → Type 0
IsActive active v = any (λ a. str_eq a v) active ≡ true

-- What a validator has above its targets, and what it lacks below them, with one more for each of
-- the first `remainder` positions.
module _ (target : Delegation → ℕ) (remainder : ℕ) (v : String) where
  abbrev pub above : ℕ → List Delegation → ℕ
  above i [] = 0
  above i (d ∷ ds) =
      (if str_eq d.validator v
        then d.amount - (target d + (if leb (i + 1) remainder then 1 else 0))
        else 0)
      + above (i + 1) ds

  abbrev pub below : ℕ → List Delegation → ℕ
  below i [] = 0
  below i (d ∷ ds) =
      (if str_eq d.validator v
        then (target d + (if leb (i + 1) remainder then 1 else 0)) - d.amount
        else 0)
      + below (i + 1) ds

classify-src :
    (active : List String) (least : ℕ) (d : Delegation) (t : ℕ) (rest : Surplus) (v : String)
    → amount_of v (classify active least d t rest).src_delegations
      ≤ (if str_eq d.validator v then d.amount - t else 0) + amount_of v rest.src_delegations
unfolding classify
classify-src active least d t rest v = ground arith

classify-dst :
    (active : List String) (least : ℕ) (d : Delegation) (t : ℕ) (rest : Surplus) (v : String)
    → amount_of v (classify active least d t rest).dst_delegations
      ≤ (if str_eq d.validator v then t - d.amount else 0) + amount_of v rest.dst_delegations
unfolding classify
classify-dst active least d t rest v = ground arith

classify-All :
    (active : List String) (least : ℕ) (d : Delegation) (t : ℕ) (rest : Surplus)
    → All (λ (e : Delegation). IsActive active e.validator) rest.dst_delegations
    → All
        (λ (e : Delegation). IsActive active e.validator)
        (classify active least d t rest).dst_delegations
unfolding classify
classify-All active least d t rest h = ground arith

module _ (active : List String) (least remainder : ℕ) (load_target : Delegation → Result ℕ) where
  -- A successful sorting, step by step.
  pub sort-cons-eq-ok :
      (i : ℕ) (d : Delegation) (ds : List Delegation) (s : Surplus)
      → sort_delegations active least remainder load_target i (d ∷ ds) ≡ ok s
      → (t : ℕ) × (rest : Surplus) × (load_target d ≡ ok t)
        × (sort_delegations active least remainder load_target (i + 1) ds ≡ ok rest)
        × (s ≡ classify active least d (t + (if leb (i + 1) remainder then 1 else 0)) rest)
  unfolding sort_delegations
  sort-cons-eq-ok i d ds s h = bind_ok (load_target d) _ h λ t et h1.
      bind_ok (add128 t (if leb (i + 1) remainder then 1 else 0)) _ h1 λ g eg h2.
        bind_ok (sort_delegations active least remainder load_target (i + 1) ds) _ h2 λ rest er h3.
          (
            t,
            rest,
            et,
            er,
            sym (ok-injective h3)
                ∙ ap (λ x. classify active least d x rest)
                    (fit-eq-ok u128_mod panic (t + (if leb (i + 1) remainder then 1 else 0)) {y = g}
                      eg).0,
          )

  pub sort-All :
      (i : ℕ) (ds : List Delegation) (s : Surplus)
      → sort_delegations active least remainder load_target i ds ≡ ok s
      → All (λ (e : Delegation). IsActive active e.validator) s.dst_delegations
  unfolding sort_delegations
  sort-All i [] s h = rw (← ok-injective h) tt
  sort-All i (d ∷ ds) s h =
      let (t, rest, _, er, es) = sort-cons-eq-ok i d ds s h in
      rw es (classify-All active least d _ rest (sort-All (i + 1) ds rest er))

  module _ (target : Delegation → ℕ)
      (loads : (d : Delegation) → load_target d ≡ ok (target d)) where
    pub target_eq : (d : Delegation) {t : ℕ} → load_target d ≡ ok t → t ≡ target d
    target_eq d e = ok-injective (sym e ∙ loads d)

    sort-above :
        (v : String) (i : ℕ) (ds : List Delegation) (s : Surplus)
        → sort_delegations active least remainder load_target i ds ≡ ok s
        → (amount_of v s.src_delegations ≤ above target remainder v i ds)
          × (amount_of v s.dst_delegations ≤ below target remainder v i ds)
    unfolding sort_delegations
    sort-above v i [] s h = rw (← ok-injective h) (omega arith, omega arith)
    sort-above v i (d ∷ ds) s h =
        let (t, rest, et, er, es) = sort-cons-eq-ok i d ds s h in
        let goal = t + (if leb (i + 1) remainder then 1 else 0) in
        rw es (
          rw (← target_eq d et) (
            omega (
              arith,
              classify-src active least d goal rest v,
              (sort-above v (i + 1) ds rest er).0,
            ),
            omega (
              arith,
              classify-dst active least d goal rest v,
              (sort-above v (i + 1) ds rest er).1,
            ),
          ))

-- A successful call: the sorted sides, and the moves that match them.
module _ (active : List String) (ds : List Delegation) (least : ℕ)
    (load_target : Delegation → Result ℕ) where
  pub rebalancing-eq-ok :
      {rs : List Redelegation}
      → compute_redelegations_for_rebalancing active ds least load_target ≡ ok rs
      → (s : Surplus) × (sort_delegations active least (staked ds % length active) load_target 0 ds
          ≡ ok s)
        × (rs
            ≡ match_loop
                (length s.src_delegations + length s.dst_delegations)
                s.src_delegations
                s.dst_delegations)
  unfolding compute_redelegations_for_rebalancing
  rebalancing-eq-ok h = bind_ok (sum_amounts ds) _ h λ t et h1.
      bind_ok (div_word t (length active)) _ h1 λ per ep h2.
        bind_ok (rem_word t (length active)) _ h2 λ rem er h3.
          bind_ok (sort_delegations active least rem load_target 0 ds) _ h3 λ s es h4.
            let e : rem ≡ staked ds % length active =
              rw (← sum_amounts-eq-ok ds et) (rem_word-eq-ok t (length active) rem er).1 in
            (s, rw (← e) es, sym (ok-injective h4))

  -- Where the targets load as `target`, a successful call moves from each validator no more than its
  -- delegation exceeds its target, and to each no more than its target exceeds its delegation; the
  -- target of each of the first `staked % active` positions counts one more.
  pub rebalancing_within_targets :
      {rs : List Redelegation} (target : Delegation → ℕ) (v : String)
      → ((d : Delegation) → load_target d ≡ ok (target d))
      → compute_redelegations_for_rebalancing active ds least load_target ≡ ok rs
      → (moved_from v rs ≤ above target (staked ds % length active) v 0 ds)
        × (moved_to v rs ≤ below target (staked ds % length active) v 0 ds)
  rebalancing_within_targets target v loads h =
      let (s, es, er) = rebalancing-eq-ok h in
      let bounds = sort-above active least _ load_target target loads v 0 ds s es in
      rw er (
        le_trans (match_loop-moved_from v _ s.src_delegations s.dst_delegations) bounds.0,
        le_trans (match_loop-moved_to v _ s.src_delegations s.dst_delegations) bounds.1,
      )
