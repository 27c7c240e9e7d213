-- ===== src/Execute/Harvest/Reinvested.antt =====
-- What `reinvest` of contracts/hub/src/execute.rs bonds and what it pays as a fee.
use joe_liquid_staking.Prelude.{
  ℕ, ◌+◌, ◌*◌, ◌/◌, ◌≤◌, ◌<◌, ◌≡◌, refl, sym, ap, ◌∙◌, ◌⊎◌, String, true, false, some, List, [],
  ◌∷◌, not, str_eq, eq_iff, retain, if◌then◌else◌, ok, arith, bind_ok, ok-injective, guard-eq-ok,
  load, load-eq-ok, ltb, ltb→lt, unwrap_or, fit-eq-ok, u128_mod, overflow, ◌-◌,
}
use native.Mathlib.Nat.{div-le_of_le-mul, mul-le-mul_left, mul_comm}
use joe_liquid_staking.Types.{
  Cosmwasm, Env, Coin, CosmosMsg, SubMsg, WasmBody, wallet, fee_split, Response, respond,
  delegation_msg, decimal_fractional,
}
use joe_liquid_staking.Helpers.{query_delegations, get_denom_balance}
use joe_liquid_staking.Math.{sum_amounts}
use joe_liquid_staking.State.{State}
use joe_liquid_staking.Execute.Reply.Received.{held}
use joe_liquid_staking.Execute.Harvest.{checked_mul_uint, fee_msgs, choose_validator, reinvest}

-- `checked_mul_uint` is the product, rounded down.
pub checked_mul_uint-eq-ok :
    (d a x : ℕ) → checked_mul_uint d a ≡ ok x → x ≡ a * d / decimal_fractional
unfolding checked_mul_uint
checked_mul_uint-eq-ok d a x h =
    ground (arith, fit-eq-ok u128_mod overflow (a * d / decimal_fractional) {y = x})

fee-le : (rate a : ℕ) → rate ≤ decimal_fractional → a * rate / decimal_fractional ≤ a
fee-le rate a h =
    div-le_of_le-mul decimal_fractional (rw (mul_comm decimal_fractional a) (mul-le-mul_left a h))

-- How a fee is paid: none where it is zero, and otherwise by one message to the stored fee account, a
-- transfer to a wallet and a deposit with a fee splitter.
abbrev pub IsPaid : State → String → ℕ → List SubMsg → Type 0
IsPaid s denom fee ms =
    ((fee ≡ 0) × (ms ≡ []))
    ⊎ ((account : String) × (0 < fee)
        × (s.fee_account ≡ some account)
        × (((s.fee_account_type ≡ some wallet)
              × (ms
                  ≡ SubMsg.plain
                      (CosmosMsg.bank_send account (record { denom = denom; amount = fee } ∷ []))
                    ∷ []))
            ⊎ ((s.fee_account_type ≡ some fee_split)
                × (ms
                    ≡ SubMsg.plain (
                        CosmosMsg.wasm_execute account (WasmBody.fee_split_deposit false)
                          (record { denom = denom; amount = fee } ∷ []))
                      ∷ []))))

-- What a reinvestment found, stores and sends, with a fee rate.
abbrev pub Split : Cosmwasm → Env → ℕ → State → State × Response → Type 0
Split cw env rate s out =
    (denom : String) × (before : ℕ) × (balance : ℕ) × (fee : ℕ) × (bonded : ℕ)
    × (validator : String) × (fees : List SubMsg) × (coins : List Coin) × (after : List Coin)
    × (s.denom ≡ some denom)
    × (s.prev_denom ≡ some before)
    × (cw.query_balance env.contract denom ≡ ok balance)
    × (before < balance)
    × (fee ≡ (balance - before) * rate / decimal_fractional)
    × (before + bonded + fee ≡ balance)
    × (out.1.messages
        ≡ SubMsg.plain (
            delegation_msg (record { validator = validator; amount = bonded; denom = denom })
              env.contract)
          ∷ fees)
    × IsPaid s denom fee fees
    × (s.unlocked_coins ≡ some coins)
    × (out.0 ≡ record s { unlocked_coins = some after })
    × ((other : String) → held other after ≡ (if str_eq other denom then 0 else held other coins))

-- Without the coins of a denom nothing is held of it, and as much as before of any other.
held-retain :
    (denom other : String) (coins : List Coin)
    → held other (retain (λ c. not (str_eq c.denom denom)) coins)
      ≡ (if str_eq other denom then 0 else held other coins)
held-retain denom other [] = ground arith
held-retain denom other (c ∷ coins) =
    let alike : str_eq c.denom other ≡ true → str_eq other denom ≡ str_eq c.denom denom =
      λ e. ap (λ x. str_eq x denom) (sym ((eq_iff c.denom other).0 e)) in
    ground (arith, alike, held-retain denom other coins)

module _ (cw : Cosmwasm) (env : Env) (s : State) where
  fee_msgs-IsPaid :
      (fee : ℕ) (denom : String) (ms : List SubMsg)
      → fee_msgs cw s fee denom ≡ ok ms
      → IsPaid s denom fee ms
  unfolding fee_msgs
  fee_msgs-IsPaid fee denom ms h = ground arith

  -- Where the stored fee rate is at most 1, a successful reinvestment finds a balance above the one
  -- stored before. Its messages are one delegation and then the payment of the fee, if it is not
  -- zero, to the stored fee account, by its type; the fee is the stored rate of the difference,
  -- rounded down, and the delegation is of the rest of the difference. It forgets the unlocked coins
  -- of the denom, keeps those of the others, and changes nothing else of the storage.
  pub reinvest_splits :
      (rate : ℕ) (out : State × Response)
      → s.fee_rate ≡ some rate
      → rate ≤ decimal_fractional
      → reinvest cw env s ≡ ok out
      → Split cw env rate s out
  unfolding reinvest respond get_denom_balance
  reinvest_splits rate out stored within h = bind_ok (load s.denom) _ h λ denom ed h.
      bind_ok (load s.fee_rate) _ h λ rate' er h.
        bind_ok (load s.validators_active) _ h λ validators ev h.
          bind_ok (load s.prev_denom) _ h λ before ep h.
            bind_ok (get_denom_balance cw env.contract denom) _ h λ balance eb h.
              let (above, h) = guard-eq-ok (ltb before balance) _ _ h in
              bind_ok (load s.unlocked_coins) _ h λ coins ec h.
                bind_ok (query_delegations cw validators env.contract denom) _ h λ ds es h.
                  bind_ok (sum_amounts ds) _ h λ total_bonded et h.
                    bind_ok
                      (choose_validator cw s total_bonded (unwrap_or s.total_mining_power 0) ds) _ h
                      λ choice eh h.
                        bind_ok (checked_mul_uint rate' (balance - before)) _ h λ fee ef h.
                          bind_ok (fee_msgs cw s fee denom) _ h λ ms em h.
                            let below = ltb→lt before balance above in
                            let same : rate' ≡ rate = ok-injective (sym er ∙ ap load stored) in
                            let fee_eq : fee ≡ (balance - before) * rate / decimal_fractional =
                              rw (← same)
                                (checked_mul_uint-eq-ok rate' (balance - before) fee ef) in
                            let fee_le = fee-le rate (balance - before) within in
                            (
                              denom,
                              before,
                              balance,
                              fee,
                              (balance - before) - fee,
                              choice.validator,
                              ms,
                              coins,
                              _,
                              load-eq-ok s.denom denom ed,
                              load-eq-ok s.prev_denom before ep,
                              eb,
                              below,
                              fee_eq,
                              omega (arith, below, fee_eq, fee_le),
                              rw (← ok-injective h) refl,
                              fee_msgs-IsPaid fee denom ms em,
                              load-eq-ok s.unlocked_coins coins ec,
                              rw (← ok-injective h) refl,
                              λ other. held-retain denom other coins,
                            )
