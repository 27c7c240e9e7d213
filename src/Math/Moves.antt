-- ===== src/Math/Moves.antt =====
-- The matching loop of `compute_redelegations_for_rebalancing`, over any two lists.
use joe_liquid_staking.Prelude.{
  ℕ, zero, suc, ◌+◌, ◌-◌, ◌≤◌, min, ◌≡◌, String, List, [], ◌∷◌, arith, length, total, inl, inr,
  Bool-cases, All, ◌==◌, if◌then◌else◌, str_eq,
}
use joe_liquid_staking.Types.{Delegation, Redelegation}
use joe_liquid_staking.Math.{match_loop}
use joe_liquid_staking.Math.Even.{staked}
use joe_liquid_staking.Math.Remove.{moved}

-- The amounts that leave a validator, that reach it, and that a list of delegations gives it.
abbrev pub moved_from : String → List Redelegation → ℕ
moved_from v = total (λ r. if str_eq r.src v then r.amount else 0)

abbrev pub moved_to : String → List Redelegation → ℕ
moved_to v = total (λ r. if str_eq r.dst v then r.amount else 0)

abbrev pub amount_of : String → List Delegation → ℕ
amount_of v = total (λ d. if str_eq d.validator v then d.amount else 0)

-- The head of a list after a round, or its tail if the head is used up.
abbrev cut : Delegation → ℕ → List Delegation → List Delegation
cut d amount ds = if d.amount == amount then ds else record d { amount = d.amount - amount } ∷ ds

cut-staked :
    (d : Delegation) (amount : ℕ) (ds : List Delegation)
    → amount ≤ d.amount
    → staked (cut d amount ds) + amount ≡ d.amount + staked ds
cut-staked d amount ds h = ground arith

cut-amount_of :
    (v : String) (d : Delegation) (amount : ℕ) (ds : List Delegation)
    → amount ≤ d.amount
    → amount_of v (cut d amount ds) + (if str_eq d.validator v then amount else 0)
      ≡ (if str_eq d.validator v then d.amount else 0) + amount_of v ds
cut-amount_of v d amount ds h = ground arith

-- A round uses up one of the heads.
cut-length :
    (s d : Delegation) (srcs dsts : List Delegation)
    → let amount = min s.amount d.amount in
      length (cut s amount srcs) + length (cut d amount dsts) ≤ length srcs + length dsts + 1
cut-length s d srcs dsts = ground arith

-- With enough rounds the loop moves all of the smaller side.
pub match_loop_total :
    (n : ℕ) (srcs dsts : List Delegation)
    → length srcs + length dsts ≤ n
    → moved (match_loop n srcs dsts) ≡ min (staked srcs) (staked dsts)
unfolding match_loop
match_loop_total zero [] [] h = omega arith
match_loop_total zero [] (d ∷ dsts) h = absurd (omega arith)
match_loop_total zero (s ∷ srcs) dsts h = absurd (omega arith)
match_loop_total (suc n) [] dsts h = omega arith
match_loop_total (suc n) (s ∷ srcs) [] h = omega arith
match_loop_total (suc n) (s ∷ srcs) (d ∷ dsts) h =
    let amount = min s.amount d.amount in
    omega (
      arith,
      match_loop_total n (cut s amount srcs) (cut d amount dsts)
          (omega (arith, cut-length s d srcs dsts)),
      cut-staked s amount srcs (omega arith),
      cut-staked d amount dsts (omega arith),
    )

pub match_loop-moved_from :
    (v : String) (n : ℕ) (srcs dsts : List Delegation)
    → moved_from v (match_loop n srcs dsts) ≤ amount_of v srcs
unfolding match_loop
match_loop-moved_from v zero srcs dsts = omega arith
match_loop-moved_from v (suc n) [] dsts = omega arith
match_loop-moved_from v (suc n) (s ∷ srcs) [] = omega arith
match_loop-moved_from v (suc n) (s ∷ srcs) (d ∷ dsts) =
    let amount = min s.amount d.amount in
    omega (
      arith,
      match_loop-moved_from v n (cut s amount srcs) (cut d amount dsts),
      cut-amount_of v s amount srcs (omega arith),
    )

pub match_loop-moved_to :
    (v : String) (n : ℕ) (srcs dsts : List Delegation)
    → moved_to v (match_loop n srcs dsts) ≤ amount_of v dsts
unfolding match_loop
match_loop-moved_to v zero srcs dsts = omega arith
match_loop-moved_to v (suc n) [] dsts = omega arith
match_loop-moved_to v (suc n) (s ∷ srcs) [] = omega arith
match_loop-moved_to v (suc n) (s ∷ srcs) (d ∷ dsts) =
    let amount = min s.amount d.amount in
    omega (
      arith,
      match_loop-moved_to v n (cut s amount srcs) (cut d amount dsts),
      cut-amount_of v d amount dsts (omega arith),
    )

-- A property of the targets' validators holds of every destination.
module _ (P : String → Type 0) where
  cut-All :
      (d : Delegation) (amount : ℕ) (ds : List Delegation)
      → P d.validator
      → All (λ (e : Delegation). P e.validator) ds
      → All (λ (e : Delegation). P e.validator) (cut d amount ds)
  cut-All d amount ds p h = elim (Bool-cases (d.amount == amount)) [
    | inl e ↦ rw e h
    | inr e ↦ rw e (p, h)
  ]

  pub match_loop-All :
      (n : ℕ) (srcs dsts : List Delegation)
      → All (λ (e : Delegation). P e.validator) dsts
      → All (λ (r : Redelegation). P r.dst) (match_loop n srcs dsts)
  unfolding match_loop
  match_loop-All zero srcs dsts h = tt
  match_loop-All (suc n) [] dsts h = tt
  match_loop-All (suc n) (s ∷ srcs) [] h = tt
  match_loop-All (suc n) (s ∷ srcs) (d ∷ dsts) h =
      (h.0, match_loop-All n _ _ (cut-All d (min s.amount d.amount) dsts h.0 h.1))
