-- ===== src/Execute/Bond/Paused.antt =====
-- `bond` of contracts/hub/src/execute.rs while a validator is paused: the mint is computed on the
-- active validators' delegations alone.
use joe_liquid_staking.Prelude.{
  ℕ, ◌+◌, ◌*◌, ◌/◌, ◌<◌, ◌≡◌, ◌∙◌, ap, String, some, List, [], ◌∷◌, ok, arith, inl, inr,
}
use native.Mathlib.Nat.{mul-lt-mul_of_pos_left, mul-div_cancel}
use joe_liquid_staking.Types.{
  Cosmwasm, IsCosmwasm, Env, Delegation, CosmosMsg, SubMsg, WasmBody, Response,
}
use joe_liquid_staking.State.{State}
use joe_liquid_staking.Helpers.{query_delegations, query_cw20_total_supply}
use joe_liquid_staking.Math.{compute_mint_amount}
use joe_liquid_staking.Math.Even.{staked}
use joe_liquid_staking.Math.Ratio.{compute_mint-eq-ok}
use joe_liquid_staking.Execute.Bond.{bond}
use joe_liquid_staking.Execute.Bond.Bonded.{bond_delegates}

-- The last message of a response mints an amount of a token for somebody.
abbrev pub Mints : State × Response → String → String → ℕ → Type 0
Mints out token receiver minted =
    (first : SubMsg) × (out.1.messages
      ≡ first
        ∷ SubMsg.plain (CosmosMsg.wasm_execute token (WasmBody.cw20_mint receiver minted) [])
        ∷ [])

-- What a bond that nothing is rounded of takes from the shares that stand.
dilutes :
    (all active supply x k : ℕ)
    → active < all
    → 0 < k
    → supply * x ≡ k * active
    → (all + x) * supply < all * (supply + k)
dilutes all active supply x k less positive exact =
    omega (arith, mul-lt-mul_of_pos_left {k = k} less positive, exact)

-- What the hub has staked: the delegations `active` to the active validators, `all` to all of them.
pub record Stakes (cw : Cosmwasm) (env : Env) (s : State) (denom token : String)
    (active all : List Delegation) (supply : ℕ) : Type 0 where
  pub validators : List String
  pub validators_active : List String
  pub denom_is : s.denom ≡ some denom
  pub token_is : s.steak_token ≡ some token
  pub validators_is : s.validators ≡ some validators
  pub active_is : s.validators_active ≡ some validators_active
  pub all_staked : query_delegations cw validators env.contract denom ≡ ok all
  pub active_staked : query_delegations cw validators_active env.contract denom ≡ ok active
  pub supply_is : query_cw20_total_supply cw token ≡ ok supply

module _ {cw : Cosmwasm} (law : IsCosmwasm cw) (env : Env) (receiver : String) (s : State) where
  exact_mint :
      (supply x : ℕ) (ds : List Delegation) (k minted : ℕ)
      → 0 < staked ds
      → supply * x ≡ k * staked ds
      → compute_mint_amount cw supply x ds ≡ ok minted
      → minted ≡ k
  exact_mint supply x ds k minted some_staked exact e =
      elim (compute_mint-eq-ok law supply x ds minted e) [
        | inl (none_staked, _) ↦ absurd (omega arith)
        | inr (_, quotient) ↦
            quotient ∙ (ap (λ n. n / staked ds) exact ∙ mul-div_cancel k some_staked)
      ]

  -- While validators that are not active hold delegations, a bond lowers what a share is worth: with
  -- something staked with the active validators, but less than with all of them, a successful bond
  -- of `x` tokens whose mint is exact, `supply * x` being a positive `k` times the active stake, mints
  -- `k` shares, and the ratio after it, (all + x) / (supply + k), is below the ratio before it,
  -- all / supply, as the products across say it.
  pub bond_dilutes :
      (denom token : String) (active all : List Delegation) (supply x k : ℕ)
      (out : State × Response)
      → Stakes cw env s denom token active all supply
      → bond cw env receiver (record { denom = denom; amount = x } ∷ []) s ≡ ok out
      → 0 < staked active
      → staked active < staked all
      → 0 < k
      → supply * x ≡ k * staked active
      → Mints out token receiver k × ((staked all + x) * supply < staked all * (supply + k))
  bond_dilutes denom token active all supply x k out stakes e some_staked less positive exact =
      let (
        denom', x', token', validators', ds, least, supply', minted, balance, ed, et, ev, received,
        _, es, _, _, eu, em, _, messages, _,
      ) =
        bond_delegates cw env receiver (record { denom = denom; amount = x } ∷ []) s out e in
      let same_token : token' ≡ token = cc (et, stakes.token_is) in
      let same_active : ds ≡ active =
        cc (ed, ev, es, stakes.denom_is, stakes.active_is, stakes.active_staked) in
      let same_supply : supply' ≡ supply = cc (same_token, eu, stakes.supply_is) in
      let same_amount : x' ≡ x = cc received in
      let paid : compute_mint_amount cw supply x active ≡ ok minted =
        cc (em, same_supply, same_amount, same_active) in
      let all_minted = exact_mint supply x active k minted some_staked exact paid in
      let sent : Mints out token receiver k = rw (← same_token, ← all_minted) (_, messages) in
      (sent, dilutes (staked all) (staked active) supply x k less positive exact)
