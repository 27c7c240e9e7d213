-- ===== src/Contract/Invariant.antt =====
-- The invariant of the hub's storage: the books of the unbonding queue and the bounds of its
-- numbers.
use joe_liquid_staking.Prelude.{
  ℕ, ◌+◌, ◌≤◌, ◌≡◌, ap, String, Bool, Option, some, none, List, ok, arith, total, bind_ok,
  ok-injective, guard-eq-ok, load, load-eq-ok, leb, leb→le, false, true, str_eq, ◌∙◌,
}
use joe_liquid_staking.Types.{Cosmwasm, Env, Response, decimal_fractional}
use joe_liquid_staking.Store.{put-total}
use joe_liquid_staking.State.{State, assert_owner, save_power, find_power}
use joe_liquid_staking.Execute.Manage.{update_fee}
use joe_liquid_staking.Execute.Mining.{update_difficulty, hash_pair, update_entropy, submit_proof}
use joe_liquid_staking.Execute.Mining.Difficulty.{Next, update_difficulty-eq-ok}
use joe_liquid_staking.Execute.Mining.Proof.{power_of, submit_proof-eq-ok}
use Prim.Native.String.{compare}
use text.Mathlib.Text.{is_lt}
use joe_liquid_staking.Ledger.{Balanced}
use joe_liquid_staking.Store.Order.{Ascending}
use joe_liquid_staking.State.Order.{power_before, save_power-Ascending}
use joe_liquid_staking.Ledger.Order.{InOrder}
use joe_liquid_staking.Contract.Frame

-- The fee is at most the largest fee, which is at most 1.
abbrev pub FeesBounded : Option ℕ → Option ℕ → Type 0
FeesBounded fee none = Unit
FeesBounded none (some max_fee) = max_fee ≤ decimal_fractional
FeesBounded (some fee) (some max_fee) = (fee ≤ max_fee) × (max_fee ≤ decimal_fractional)

abbrev pub AtLeastOne : Option ℕ → Type 0
AtLeastOne none = Unit
AtLeastOne (some n) = 1 ≤ n

-- The validators' mining powers add up to the total.
abbrev pub PowersAddUp : Option ℕ → List (String × ℕ) → Type 0
PowersAddUp none powers = Unit
PowersAddUp (some t) powers = total (λ p. p.1) powers ≡ t

pub record IsSound (s : State) : Type 0 where
  pub books : Balanced s
  pub order : InOrder s
  pub fees : FeesBounded s.fee_rate s.max_fee_rate
  pub difficulty : AtLeastOne s.miner_difficulty
  pub powers : PowersAddUp s.total_mining_power s.validator_mining_powers
  pub powers_order : Ascending power_before s.validator_mining_powers

Balanced-SameQueue : (s t : State) → Frame.SameQueue s t → Balanced s → Balanced t
Balanced-SameQueue s t same h =
    rw (same.pending_batch, same.previous_batches, same.unbond_requests) h

InOrder-SameQueue : (s t : State) → Frame.SameQueue s t → InOrder s → InOrder t
InOrder-SameQueue s t same h = rw (same.previous_batches, same.unbond_requests) h

-- The invariant where the numbers are as before.
pub IsSound-SameNumbers :
    (s t : State) → Frame.SameNumbers s t → Balanced t → InOrder t → IsSound s → IsSound t
IsSound-SameNumbers s t same books order h = record {
  books = books;
  order = order;
  fees = rw (same.fee_rate, same.max_fee_rate) h.fees;
  difficulty = rw same.miner_difficulty h.difficulty;
  powers = rw (same.total_mining_power, same.validator_mining_powers) h.powers;
  powers_order = rw same.validator_mining_powers h.powers_order;
}

pub IsSound-Same :
    (s t : State) → Frame.SameQueue s t × Frame.SameNumbers s t → IsSound s → IsSound t
IsSound-Same s t same h =
    IsSound-SameNumbers s t same.1 (Balanced-SameQueue s t same.0 h.books)
      (InOrder-SameQueue s t same.0 h.order) h

-- The invariants of the numbers.
abbrev pub Numbers : State → Type 0
Numbers s =
    FeesBounded s.fee_rate s.max_fee_rate
    × AtLeastOne s.miner_difficulty
    × PowersAddUp s.total_mining_power s.validator_mining_powers
    × Ascending power_before s.validator_mining_powers

max_fee-le-one :
    (fee : Option ℕ) (max_fee : ℕ) → FeesBounded fee (some max_fee) → max_fee ≤ decimal_fractional
max_fee-le-one none max_fee h = h
max_fee-le-one (some fee) max_fee h = h.1

pub update_fee-Numbers :
    (sender : String) (fee : ℕ) (s : State) (out : State × Response)
    → Numbers s
    → update_fee sender fee s ≡ ok out
    → Numbers out.0
unfolding update_fee
update_fee-Numbers sender fee s out h e = bind_ok (assert_owner s sender) _ e λ _ _ e.
    bind_ok (load s.max_fee_rate) _ e λ max_fee em e.
      let (within, e) = guard-eq-ok (leb fee max_fee) _ _ e in
      let stored = load-eq-ok s.max_fee_rate max_fee em in
      let bound = max_fee-le-one s.fee_rate max_fee (rw stored at h.0) in
      rw (← ok-injective e) (rw stored (leb→le fee max_fee within, bound), h.1, h.2, h.3)

Next-AtLeastOne :
    (duration : ℕ) (proved : Bool) (d d' : ℕ) → Next duration proved d d' → 1 ≤ d → 1 ≤ d'
Next-AtLeastOne duration proved d d' (Next.lower slow above e) h = omega arith
Next-AtLeastOne duration proved d d' (Next.higher fast p e fits) h = omega arith
Next-AtLeastOne duration proved d d' (Next.same a b e) h = omega arith

update_difficulty-Numbers :
    (time : ℕ) (proved : Bool) (s t : State)
    → Numbers s
    → update_difficulty time proved s ≡ ok t
    → Numbers t
update_difficulty-Numbers time proved s t h e =
    let (last, d, duration, d', _, stored, _, next, et) =
      update_difficulty-eq-ok time proved s t e in
    rw et (h.0, Next-AtLeastOne duration proved d d' next (rw stored at h.1), h.2, h.3)

pub update_entropy-Numbers :
    (cw : Cosmwasm) (env : Env) (entropy : String) (s : State) (out : State × Response)
    → Numbers s
    → update_entropy cw env entropy s ≡ ok out
    → Numbers out.0
unfolding update_entropy
update_entropy-Numbers cw env entropy s out h e =
    bind_ok (load s.miner_entropy_draft) _ e λ draft _ e.
      bind_ok
        (update_difficulty env.time false
          (record s { miner_entropy_draft = some (hash_pair cw draft entropy) }))
        _ e λ t et e. rw (← ok-injective e) (update_difficulty-Numbers env.time false _ t h et)

save_power-total :
    (v : String) (blocks : ℕ) (powers : List (String × ℕ))
    → total (λ (p : String × ℕ). p.1) (save_power (v, power_of v powers + blocks) powers)
      ≡ total (λ (p : String × ℕ). p.1) powers + blocks
unfolding save_power find_power
save_power-total v blocks powers =
    let put =
      put-total (λ (a b : String × ℕ). str_eq a.0 b.0)
        (λ (a b : String × ℕ). is_lt (compare a.0 b.0)) (λ (p : String × ℕ). p.1)
        (v, power_of v powers + blocks) powers in
    omega (arith, put)

pub submit_proof-Numbers :
    (cw : Cosmwasm) (env : Env) (sender : String) (nonce : ℕ) (address : String) (s : State)
    (out : State × Response)
    → Numbers s
    → submit_proof cw env sender nonce address s ≡ ok out
    → Numbers out.0
submit_proof-Numbers cw env sender nonce address s out h e =
    let done = submit_proof-eq-ok cw env sender nonce address s out e in
    rw done.storage (
      h.0,
      Next-AtLeastOne done.duration true done.difficulty done.difficulty' done.next
          (rw done.difficulty_stored at h.1),
      save_power-total done.validator done.blocks s.validator_mining_powers
          ∙ ap (λ (n : ℕ). n + done.blocks) (rw done.power_stored at h.2),
      save_power-Ascending
          (done.validator, power_of done.validator s.validator_mining_powers + done.blocks)
          s.validator_mining_powers h.3,
    )

pub numbers : {s : State} → IsSound s → Numbers s
numbers h = (h.fees, h.difficulty, h.powers, h.powers_order)

pub IsSound-SameQueue : (s t : State) → Frame.SameQueue s t → Numbers t → IsSound s → IsSound t
IsSound-SameQueue s t same n h = record {
  books = Balanced-SameQueue s t same h.books;
  order = InOrder-SameQueue s t same h.order;
  fees = n.0;
  difficulty = n.1;
  powers = n.2;
  powers_order = n.3;
}
