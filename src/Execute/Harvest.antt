-- ===== src/Execute/Harvest.antt =====
-- `harvest` and `reinvest` of contracts/hub/src/execute.rs, and `checked_mul_uint` of
-- packages/steak/src/lib.rs.
pub mod Reinvested
use joe_liquid_staking.Prelude.{
  ℕ, ◌+◌, ◌-◌, ◌*◌, ◌/◌, String, Bool, true, false, ◌&&◌, ◌||◌, not, some, List, [], ◌∷◌, ◌++◌, map,
  Result, ok, err, panic, overflow, generic_err, ◌>>=◌, ◌>>◌, guard, load, unwrap_or, if◌then◌else◌,
  ltb, leb, ◌==◌, str_eq, retain, fit, u128_mod,
}
use Prim.Native.Nat.{compare, Ordering}
use mathlib.Core.Option
use joe_liquid_staking.Types.{
  Cosmwasm, Env, Coin, Delegation, CosmosMsg, SubMsg, WasmBody, Value, Response, respond, Event,
  delegation_msg, reward_withdrawal_msg, decimal_fractional, FeeType, wallet, fee_split, ExecuteMsg,
  reinvest as reinvest_msg,
}
use joe_liquid_staking.State.{State, find_power}
use joe_liquid_staking.Helpers.{query_delegations, get_denom_balance}
use joe_liquid_staking.Math.{sum_amounts, compute_target_delegation_from_mining_power}
use joe_liquid_staking.Execute.Bond.{reply_register_received_coins}

-- `Decimal::checked_mul_uint`: the product is taken in 256 bits, where it cannot overflow.
unfoldable pub checked_mul_uint : ℕ → ℕ → Result ℕ
checked_mul_uint decimal other =
    if decimal == 0 || other == 0
    then ok 0
    else fit u128_mod overflow (other * decimal / decimal_fractional)

-- How far apart two numbers are: `abs_diff`.
unfoldable pub abs_diff : ℕ → ℕ → ℕ
abs_diff a b = if ltb a b then b - a else a - b

-- `Ordering`'s own order, as `current_cmp > cmp` uses it.
unfoldable pub ordering_gt : Ordering → Ordering → Bool
ordering_gt Ordering.gt Ordering.gt = false
ordering_gt Ordering.gt _ = true
ordering_gt Ordering.eq Ordering.lt = true
ordering_gt Ordering.eq _ = false
ordering_gt Ordering.lt _ = false

unfoldable pub is_gt : Ordering → Bool
is_gt Ordering.gt = true
is_gt _ = false

-- The validator chosen so far, how its target compares to its delegation, and by how much.
pub record Choice : Type 0 where
  pub validator : String
  pub cmp : Ordering
  pub diff : ℕ

-- One round of the loop over `delegations[1..]`.
unfoldable pub choose : Choice → Delegation → ℕ → Choice
unfolding ordering_gt is_gt abs_diff
choose c d target =
    let diff = abs_diff target d.amount in
    let cmp = compare target d.amount in
    if ordering_gt cmp c.cmp || is_gt cmp && ltb c.diff diff
    then record { validator = d.validator; cmp = cmp; diff = diff }
    else c

module _ (cw : Cosmwasm) where
  unfoldable pub harvest : Env → String → State → Result (State × Response)
  harvest env sender s = do
    guard (str_eq sender env.contract)
        (generic_err "only the contract itself can harvest rewards for DPOW")
    denom ← load s.denom
    balance ← get_denom_balance cw env.contract denom
    validators ← cw.query_all_delegations env.contract
    ok (
      record s { prev_denom = some balance },
      respond
          (map
              (λ v.
                SubMsg.reply_on_success
                  (reward_withdrawal_msg (record { validator = v }) env.contract)
                  reply_register_received_coins)
              validators
            ++ SubMsg.plain (
                CosmosMsg.wasm_execute env.contract
                  (WasmBody.hub (ExecuteMsg.callback reinvest_msg)) [])
              ∷ [])
          [] "steakhub/harvest",
    )

  -- The delegation that a validator's mining power entitles it to.
  unfoldable pub target_of : State → ℕ → ℕ → String → Result ℕ
  target_of s total_bonded total_power validator =
      compute_target_delegation_from_mining_power cw total_bonded
        (unwrap_or
          (Option.map (λ (p : String × ℕ). p.1) (find_power validator s.validator_mining_powers)) 0)
        total_power

  unfoldable pub choose_from : State → ℕ → ℕ → Choice → List Delegation → Result Choice
  unfolding target_of choose
  choose_from s total_bonded total_power c [] = ok c
  choose_from s total_bonded total_power c (d ∷ ds) = do
    target ← target_of s total_bonded total_power d.validator
    choose_from s total_bonded total_power (choose c d target) ds

  -- The choice over all delegations; `delegations[0]` panics where there is none.
  unfoldable pub choose_validator : State → ℕ → ℕ → List Delegation → Result Choice
  unfolding choose_from is_gt abs_diff
  choose_validator s total_bonded total_power [] = err panic
  choose_validator s total_bonded total_power (d ∷ ds) = do
    target ← target_of s total_bonded total_power d.validator
    let cmp = compare target d.amount
    choose_from s total_bonded total_power
        (record {
          validator = d.validator;
          cmp = cmp;
          diff = if is_gt cmp then abs_diff target d.amount else 0;
        })
        ds

  -- The message that pays a fee that is not zero.
  unfoldable pub fee_msgs : State → ℕ → String → Result (List SubMsg)
  fee_msgs s fee_amount denom =
      if ltb 0 fee_amount
      then (do
        fee_account ← load s.fee_account
        fee_type ← load s.fee_account_type
        let coins : List Coin = record { denom = denom; amount = fee_amount } ∷ []
        ok (elim fee_type [
          | wallet ↦ SubMsg.plain (CosmosMsg.bank_send fee_account coins) ∷ []
          | fee_split ↦
              SubMsg.plain
                (CosmosMsg.wasm_execute fee_account (WasmBody.fee_split_deposit false) coins)
              ∷ []
        ]))
      else ok []

  unfoldable pub reinvest : Env → State → Result (State × Response)
  unfolding choose_validator fee_msgs checked_mul_uint
  reinvest env s = do
    denom ← load s.denom
    fee ← load s.fee_rate
    validators ← load s.validators_active
    prev_coin ← load s.prev_denom
    current_coin ← get_denom_balance cw env.contract denom
    guard (ltb prev_coin current_coin) (generic_err "no rewards")
    let amount_to_bond = current_coin - prev_coin
    unlocked_coins ← load s.unlocked_coins
    delegations ← query_delegations cw validators env.contract denom
    total_bonded ← sum_amounts delegations
    choice ← choose_validator s total_bonded (unwrap_or s.total_mining_power 0) delegations
    fee_amount ← checked_mul_uint fee amount_to_bond
    let bonded = amount_to_bond - fee_amount
    fees ← fee_msgs s fee_amount denom
    ok (
      record s {
        unlocked_coins = some (retain (λ coin. not (str_eq coin.denom denom)) unlocked_coins);
      },
      respond
          (SubMsg.plain (
              delegation_msg
                (record { validator = choice.validator; amount = bonded; denom = denom })
                env.contract)
            ∷ fees)
          (record {
            ty = "steakhub/harvested";
            attributes =
                ("time", Value.number env.time)
                ∷ ("height", Value.number env.height)
                ∷ ("denom", Value.text denom)
                ∷ ("fees_deducted", Value.number fee_amount)
                ∷ ("denom_bonded", Value.number bonded)
                ∷ [];
          }
            ∷ [])
          "steakhub/reinvest",
    )
