-- ===== src/Execute/Bond/Bonded.antt =====
-- What `bond` of contracts/hub/src/execute.rs accepts, delegates and mints.
use joe_liquid_staking.Prelude.{
  ℕ, ◌≤◌, ◌<◌, ◌≡◌, ◌↔◌, ◌⊎◌, inl, inr, refl, String, not, ◌==◌, some, List, [], ◌∷◌, ok, All,
  arith, bind_ok, ok-injective, guard-eq-ok, load, load-eq-ok, str_eq, eq_iff, eq_refl,
  if◌then◌else◌, ltb, ◌∙◌, ap, Bool-cases,
}
use mathlib.Core.Path.{subst}
use joe_liquid_staking.Types.{
  Cosmwasm, Env, Coin, Delegation, CosmosMsg, SubMsg, WasmBody, Response, respond, delegation_msg,
}
use joe_liquid_staking.State.{State}
use joe_liquid_staking.Helpers.{
  query_delegations, query_cw20_total_supply, get_denom_balance, parse_received_fund,
}
use joe_liquid_staking.Math.{compute_mint_amount}
use joe_liquid_staking.Execute.Bond.{
  bond, least_from, least_delegation, reply_register_received_coins,
}

-- A delegation is one of a list.
abbrev pub Among : Delegation → List Delegation → Type 0
Among d [] = ⊥
Among d (x ∷ xs) = (d ≡ x) ⊎ Among d xs

-- The funds of a message are accepted exactly where they are one coin of the expected denom with an
-- amount that is not zero, and that amount is what is received.
pub parse_received_fund_iff :
    (funds : List Coin) (denom : String) (amount : ℕ)
    → (parse_received_fund funds denom ≡ ok amount)
      ↔ ((funds ≡ record { denom = denom; amount = amount } ∷ []) × (0 < amount))
unfolding parse_received_fund
parse_received_fund_iff [] denom amount = (λ h. absurd (cc), λ h. absurd (cc))
parse_received_fund_iff (fund ∷ []) denom amount = (
  λ h.
      let (same, h) = guard-eq-ok (str_eq fund.denom denom) _ _ h in
      let (positive, h) = guard-eq-ok (not (fund.amount == 0)) _ _ h in
      let e = ok-injective h in (rw ((eq_iff fund.denom denom).0 same, e) refl, ground arith),
  λ h. rw (ap (λ (fs : List Coin). parse_received_fund fs denom) h.0, eq_refl denom) (ground arith),
)
parse_received_fund_iff (fund ∷ other ∷ more) denom amount = (λ h. absurd (cc), λ h. absurd (cc))

smaller-le :
    (best d : Delegation)
    → let next = if ltb d.amount best.amount then d else best in
      (next.amount ≤ best.amount) × (next.amount ≤ d.amount)
smaller-le best d = ground arith

least_from-le :
    (best : Delegation) (ds : List Delegation)
    → ((least_from best ds).amount ≤ best.amount)
      × All (λ (d : Delegation). (least_from best ds).amount ≤ d.amount) ds
unfolding least_from
least_from-le best [] = (omega arith, tt)
least_from-le best (d ∷ ds) =
    let ih = least_from-le (if ltb d.amount best.amount then d else best) ds in
    let next = smaller-le best d in
    (omega (arith, ih.0, next.0), (omega (arith, ih.0, next.1), ih.1))

smaller :
    (best d : Delegation)
    → let next = if ltb d.amount best.amount then d else best in (next ≡ best) ⊎ (next ≡ d)
smaller best d = elim (Bool-cases (ltb d.amount best.amount)) [
  | inl e ↦ inr (rw e refl)
  | inr e ↦ inl (rw e refl)
]

least_from-Among :
    (best : Delegation) (ds : List Delegation) → Among (least_from best ds) (best ∷ ds)
unfolding least_from
least_from-Among best [] = inl refl
least_from-Among best (d ∷ ds) =
    elim (least_from-Among (if ltb d.amount best.amount then d else best) ds) [
      | inr h ↦ inr (inr h)
      | inl h ↦ elim (smaller best d) [ inl e ↦ inl (h ∙ e) | inr e ↦ inr (inl (h ∙ e)) ]
    ]

-- The delegation that is chosen is one of the list, and none of the list is smaller.
pub least_delegation-eq-ok :
    (ds : List Delegation) (least : Delegation)
    → least_delegation ds ≡ ok least
    → Among least ds × All (λ (d : Delegation). least.amount ≤ d.amount) ds
unfolding least_delegation
least_delegation-eq-ok [] least h = cc
least_delegation-eq-ok (d ∷ ds) least h =
    subst
      (λ (x : Delegation).
        Among x (d ∷ ds) × All (λ (y : Delegation). x.amount ≤ y.amount) (d ∷ ds))
      (ok-injective h) (least_from-Among d ds, least_from-le d ds)

-- What a bond received, chose and minted.
abbrev pub Delegated : Cosmwasm → Env → String → List Coin → State → State × Response → Type 0
Delegated cw env receiver funds s out =
    (denom : String) × (amount : ℕ) × (token : String) × (validators : List String) × (ds : List
      Delegation)
    × (least : Delegation) × (supply : ℕ) × (minted : ℕ) × (balance : ℕ) × (s.denom ≡ some denom)
    × (s.steak_token ≡ some token)
    × (s.validators_active ≡ some validators)
    × (funds ≡ record { denom = denom; amount = amount } ∷ [])
    × (0 < amount)
    × (query_delegations cw validators env.contract denom ≡ ok ds)
    × Among least ds
    × All (λ (d : Delegation). least.amount ≤ d.amount) ds
    × (query_cw20_total_supply cw token ≡ ok supply)
    × (compute_mint_amount cw supply amount ds ≡ ok minted)
    × (cw.query_balance env.contract denom ≡ ok balance)
    × (out.1.messages
        ≡ SubMsg.reply_on_success
            (delegation_msg (record { validator = least.validator; amount = amount; denom = denom })
              env.contract)
            reply_register_received_coins
          ∷ SubMsg.plain (CosmosMsg.wasm_execute token (WasmBody.cw20_mint receiver minted) [])
          ∷ [])
    × (out.0 ≡ record s { prev_denom = some balance })

module _ (cw : Cosmwasm) (env : Env) (receiver : String) (funds : List Coin) (s : State) where
  -- A successful bond received one coin of the stored denom, of an amount that is not zero. It
  -- delegates all of it to an active validator than which no active one has a smaller delegation,
  -- mints for the receiver what `compute_mint_amount` answers on the token's supply and the active
  -- validators' delegations, sends nothing else, and changes the storage in that the contract's queried balance of
  -- the denom is the previous balance, and in nothing else.
  pub bond_delegates :
      (out : State × Response)
      → bond cw env receiver funds s ≡ ok out
      → Delegated cw env receiver funds s out
  unfolding bond respond get_denom_balance
  bond_delegates out h = bind_ok (load s.denom) _ h λ denom ed h.
      bind_ok (parse_received_fund funds denom) _ h λ amount ea h.
        bind_ok (load s.steak_token) _ h λ token et h.
          bind_ok (load s.validators_active) _ h λ validators ev h.
            bind_ok (query_delegations cw validators env.contract denom) _ h λ ds es h.
              bind_ok (least_delegation ds) _ h λ least el h.
                bind_ok (query_cw20_total_supply cw token) _ h λ supply eu h.
                  bind_ok (compute_mint_amount cw supply amount ds) _ h λ minted em h.
                    bind_ok (get_denom_balance cw env.contract denom) _ h λ balance eb h.
                      let received = (parse_received_fund_iff funds denom amount).0 ea in
                      let chosen = least_delegation-eq-ok ds least el in
                      (
                        denom,
                        amount,
                        token,
                        validators,
                        ds,
                        least,
                        supply,
                        minted,
                        balance,
                        load-eq-ok s.denom denom ed,
                        load-eq-ok s.steak_token token et,
                        load-eq-ok s.validators_active validators ev,
                        received.0,
                        received.1,
                        es,
                        chosen.0,
                        chosen.1,
                        eu,
                        em,
                        eb,
                        rw (← ok-injective h) refl,
                        rw (← ok-injective h) refl,
                      )
