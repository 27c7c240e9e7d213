-- ===== src/Token/Hub.antt =====
-- Who burns the token that `instantiate` of contracts/hub/src/execute.rs orders, through
-- contracts/token/src/lib.rs.
use joe_liquid_staking.Prelude.{
  ℕ, ◌≡◌, sym, ◌∙◌, ap, ◌↔◌, inl, inr, String, Option, some, [], ◌∷◌, Result, ok, bind_ok,
  ok-injective, guard-eq-ok, leb, add64, ok_or,
}
use joe_liquid_staking.Types.{
  Cosmwasm, Env, InstantiateMsg, CosmosMsg, SubMsg, Cw20InstantiateMsg, Response, fee_type_from_str,
  decimal_fractional,
}
use joe_liquid_staking.State.{State}
use joe_liquid_staking.Execute.Instantiate.{instantiate as hub_instantiate}
use joe_liquid_staking.Token.{Cw20ExecuteMsg, burn, burn_from, execute, instantiate}
use joe_liquid_staking.Token.Burn.{execute_iff}

-- The hub's response orders a token: it is one message, which instantiates it by what `init` says.
abbrev pub Orders : State × Response → Cw20InstantiateMsg → Type 0
Orders out init =
    (admin : String) × (code : ℕ) × (label : String) × (id : ℕ) × (out.1.messages
      ≡ SubMsg.reply_on_success (CosmosMsg.wasm_instantiate admin code init label) id ∷ [])

minter_of_ordered :
    (cw : Cosmwasm) (env : Env) (msg : InstantiateMsg) (s : State) (out : State × Response)
    (init : Cw20InstantiateMsg)
    → hub_instantiate cw env msg s ≡ ok out
    → Orders out init
    → init.minter ≡ env.contract
unfolding hub_instantiate
minter_of_ordered cw env msg s out init h (admin, code, label, id, e) =
    let (_, h) = guard-eq-ok (leb msg.max_fee_amount decimal_fractional) _ _ h in
    let (_, h) = guard-eq-ok (leb msg.fee_amount msg.max_fee_amount) _ _ h in
    bind_ok (ok_or (fee_type_from_str msg.fee_account_type) _) _ h λ fee_type _ h.
      bind_ok (cw.addr_validate msg.owner) _ h λ owner _ h.
        bind_ok (cw.addr_validate msg.fee_account) _ h λ account _ h.
          bind_ok (add64 env.time msg.epoch_period) _ h
            λ start _ h. cc (ap (λ (o : State × Response). o.1.messages) (ok-injective h), e)

module _ {Other Storage Answer Query Binary : Type 0}
    (token_info : Storage → Option (Option String))
    (cw20_instantiate : String → Cw20InstantiateMsg → Storage → Result (Storage × Answer))
    (cw20_execute : String → Cw20ExecuteMsg Other → Storage → Result (Storage × Answer))
    (cw20_query : Query → Storage → Result Binary) where
  -- The minter of cw20-base is the one that the token was instantiated with, and stays.
  pub record IsCw20 : Type 0 where
    pub founded :
        {sender : String} {init : Cw20InstantiateMsg} {t : Storage} {out : Storage × Answer}
        → cw20_instantiate sender init t ≡ ok out
        → token_info out.0 ≡ some (some init.minter)
    pub kept :
        {sender : String} {msg : Cw20ExecuteMsg Other} {t : Storage} {out : Storage × Answer}
        → cw20_execute sender msg t ≡ ok out
        → token_info out.0 ≡ token_info t

  -- The token's storages after it was instantiated by `init` and anybody called it.
  pub data Lives (init : Cw20InstantiateMsg) : Storage → Type 0 where
    created :
        (sender : String) (t : Storage) (out : Storage × Answer)
        → instantiate cw20_instantiate cw20_query sender init t ≡ ok out
        → Lives init out.0
    called :
        (sender : String) (msg : Cw20ExecuteMsg Other) (t : Storage) (out : Storage × Answer)
        → Lives init t
        → execute token_info cw20_execute sender msg t ≡ ok out
        → Lives init out.0

  module _ (cw20 : IsCw20) where
    minter_of_lives :
        {init : Cw20InstantiateMsg} {t : Storage}
        → Lives init t
        → token_info t ≡ some (some init.minter)
    unfolding instantiate
    minter_of_lives (created sender t out e) = cw20.founded e
    minter_of_lives (called sender msg t out before e) =
        cw20.kept ((execute_iff token_info cw20_execute sender t msg out).0 e).1
        ∙ minter_of_lives before

    -- On the token that a successful `instantiate` of the hub orders, whatever calls of it were
    -- accepted since, where cw20-base keeps the minter it was instantiated with: a burn is accepted
    -- exactly where the sender is the hub and cw20-base accepts it, and then does what cw20-base
    -- does; and `burn_from` is never accepted.
    pub hub_token_burns :
        (cw : Cosmwasm) (env : Env) (msg : InstantiateMsg) (s : State) (out : State × Response)
        (init : Cw20InstantiateMsg) (t : Storage) (sender : String) (amount : ℕ)
        (answer : Storage × Answer)
        → hub_instantiate cw env msg s ≡ ok out
        → Orders out init
        → Lives init t
        → ((execute token_info cw20_execute sender (burn amount) t ≡ ok answer)
            ↔ ((sender ≡ env.contract) × (cw20_execute sender (burn amount) t ≡ ok answer)))
          × ((owner : String)
              → ¬ (execute token_info cw20_execute sender (burn_from owner amount) t ≡ ok answer))
    hub_token_burns cw env msg s out init t sender amount answer h orders lives =
        let minter = minter_of_lives lives in
        let hub = minter_of_ordered cw env msg s out init h orders in
        let iff = execute_iff token_info cw20_execute sender t (burn amount) answer in
        (
          (
            λ e. (elim (iff.0 e).0 [ inl unminted ↦ absurd (cc) | inr its ↦ cc ], (iff.0 e).1),
            λ p. iff.1 (inr (minter ∙ ap (λ x. some (some x)) (hub ∙ sym p.0)), p.1),
          ),
          λ owner e.
              absurd
                ((execute_iff token_info cw20_execute sender t (burn_from owner amount) answer).0
                  e).0,
        )
