-- ===== src/Contract/Shares.antt =====
-- The shares that the handlers of contracts/hub/src/execute.rs burn, and the queue that they are for.
pub mod Manage
use joe_liquid_staking.Prelude.{
  ℕ, ◌≡◌, refl, String, List, [], ◌∷◌, ◌++◌, ok, arith, map, total, guard-eq-ok, bind_ok, load,
  ok-injective, str_eq,
}
use joe_liquid_staking.Helpers.{get_denom_balance, query_delegations, query_delegation}
use joe_liquid_staking.Math.{
  sum_amounts, compute_redelegations_for_rebalancing, compute_redelegations_for_removal,
}
use joe_liquid_staking.Types.{
  Cosmwasm, Env, Coin, Response, SubMsg, CosmosMsg, respond, delegation_msg, redelegation_msg,
  reward_withdrawal_msg, plain, reply_on_success, stargate, bank_send, wasm_execute,
  wasm_instantiate, cw20_mint, cw20_burn, hub, fee_split_deposit,
}
use joe_liquid_staking.State.{State, assert_owner}
use joe_liquid_staking.Execute.Bond.{bond}
use joe_liquid_staking.Execute.Harvest.{harvest, reinvest, fee_msgs}
use joe_liquid_staking.Execute.Manage.{
  rebalance, remove_validator, sum_redelegated, contains, transfer_ownership, transfer_fee_account,
  add_validator, remove_validator_ex, pause_validator, unpause_validator, set_unbond_period,
  accept_ownership, update_fee,
}
use joe_liquid_staking.Execute.Mining.{update_entropy, submit_proof}
use joe_liquid_staking.Execute.Reconcile.{reconcile}
use joe_liquid_staking.Execute.Withdraw.{withdraw_unbonded, withdraw_unbonded_admin}

-- The shares that a message burns.
abbrev burn_in : CosmosMsg → ℕ
burn_in (stargate ty body) = 0
burn_in (bank_send to coins) = 0
burn_in (wasm_execute to (cw20_mint receiver amount) funds) = 0
burn_in (wasm_execute to (cw20_burn amount) funds) = amount
burn_in (wasm_execute to (hub msg) funds) = 0
burn_in (wasm_execute to (fee_split_deposit flush) funds) = 0
burn_in (wasm_instantiate admin code msg label) = 0

abbrev pub burn_of : SubMsg → ℕ
burn_of (plain msg) = burn_in msg
burn_of (reply_on_success msg id) = burn_in msg

abbrev pub burned : List SubMsg → ℕ
burned msgs = total burn_of msgs

-- A call that burns nothing and leaves the token and the pending batch.
pub record NoBurn (s : State) (out : State × Response) : Type 0 where
  pub token : out.0.steak_token ≡ s.steak_token
  pub pending : out.0.pending_batch ≡ s.pending_batch
  pub nothing : burned out.1.messages ≡ 0

-- Messages that burn nothing, before others.
pub burned-map :
    {A : Type 0} (f : A → SubMsg)
    → ((a : A) → burn_of (f a) ≡ 0)
    → (xs : List A) (rest : List SubMsg) → burned (map f xs ++ rest) ≡ burned rest
burned-map f none_burnt [] rest = refl
burned-map f none_burnt (x ∷ xs) rest = omega (arith, none_burnt x, burned-map f none_burnt xs rest)

burned_each :
    {A : Type 0} (f : A → SubMsg)
    → ((a : A) → burn_of (f a) ≡ 0)
    → (xs : List A) → burned (map f xs) ≡ 0
burned_each f none_burnt [] = refl
burned_each f none_burnt (x ∷ xs) = omega (arith, none_burnt x, burned_each f none_burnt xs)

module _ (cw : Cosmwasm) where
  pub bond-NoBurn :
      (env : Env) (receiver : String) (funds : List Coin) (s : State) (out : State × Response)
      → bond cw env receiver funds s ≡ ok out
      → NoBurn s out
  unfolding bond respond delegation_msg
  bond-NoBurn env receiver funds s out h = ground arith

  pub harvest-NoBurn :
      (env : Env) (sender : String) (s : State) (out : State × Response)
      → harvest cw env sender s ≡ ok out
      → NoBurn s out
  unfolding harvest respond reward_withdrawal_msg
  harvest-NoBurn env sender s out h =
      let (_, h) = guard-eq-ok (str_eq sender env.contract) _ _ h in
      bind_ok (load s.denom) _ h λ denom _ h.
        bind_ok (get_denom_balance cw env.contract denom) _ h λ balance _ h.
          bind_ok (cw.query_all_delegations env.contract) _ h λ validators _ h.
            rw (← ok-injective h) (record {
              token = refl;
              pending = refl;
              nothing = burned-map _ (λ v. refl) validators _;
            })

  pub reinvest-NoBurn :
      (env : Env) (s : State) (out : State × Response) → reinvest cw env s ≡ ok out → NoBurn s out
  unfolding reinvest respond fee_msgs delegation_msg
  reinvest-NoBurn env s out h = ground arith

  pub rebalance-NoBurn :
      (env : Env) (minimum : ℕ) (s : State) (out : State × Response)
      → rebalance cw env minimum s ≡ ok out
      → NoBurn s out
  unfolding rebalance respond redelegation_msg
  rebalance-NoBurn env minimum s out h = bind_ok (load s.denom) _ h λ denom _ h.
      bind_ok (load s.validators) _ h λ listed _ h.
        bind_ok (load s.validators_active) _ h λ active _ h.
          bind_ok (query_delegations cw listed env.contract denom) _ h λ ds _ h.
            bind_ok (sum_amounts ds) _ h λ all _ h.
              bind_ok (load s.total_mining_power) _ h λ powers _ h.
                bind_ok (compute_redelegations_for_rebalancing active ds minimum _) _ h λ rs _ h.
                  bind_ok (get_denom_balance cw env.contract denom) _ h λ balance _ h.
                    bind_ok (sum_redelegated 0 rs) _ h λ moved _ h. rw (← ok-injective h) (record {
                      token = refl;
                      pending = refl;
                      nothing = burned_each _ (λ r. refl) rs;
                    })

  pub remove_validator-NoBurn :
      (env : Env) (sender v : String) (s : State) (out : State × Response)
      → remove_validator cw env sender v s ≡ ok out
      → NoBurn s out
  unfolding remove_validator respond redelegation_msg
  remove_validator-NoBurn env sender v s out h = bind_ok (assert_owner s sender) _ h λ _ _ h.
      bind_ok (load s.denom) _ h λ denom _ h. bind_ok (load s.validators) _ h λ listed _ h.
        let (_, h) = guard-eq-ok (contains listed v) _ _ h in
        bind_ok (load s.validators_active) _ h λ active _ h.
          bind_ok (query_delegations cw _ env.contract denom) _ h λ ds _ h.
            bind_ok (query_delegation cw v env.contract denom) _ h λ d _ h.
              bind_ok (compute_redelegations_for_removal d ds denom) _ h λ rs _ h.
                bind_ok (get_denom_balance cw env.contract denom) _ h λ balance _ h.
                  rw (← ok-injective h) (record {
                    token = refl;
                    pending = refl;
                    nothing = burned_each _ (λ r. refl) rs;
                  })

  pub transfer_ownership-NoBurn :
      (sender o : String) (s : State) (out : State × Response)
      → transfer_ownership cw sender o s ≡ ok out
      → NoBurn s out
  unfolding transfer_ownership respond
  transfer_ownership-NoBurn sender o s out h = ground arith

  pub transfer_fee_account-NoBurn :
      (sender ty account : String) (s : State) (out : State × Response)
      → transfer_fee_account cw sender ty account s ≡ ok out
      → NoBurn s out
  unfolding transfer_fee_account respond
  transfer_fee_account-NoBurn sender ty account s out h = ground arith

  pub update_entropy-NoBurn :
      (env : Env) (entropy : String) (s : State) (out : State × Response)
      → update_entropy cw env entropy s ≡ ok out
      → NoBurn s out
  unfolding update_entropy respond
  update_entropy-NoBurn env entropy s out h = ground arith

  pub submit_proof-NoBurn :
      (env : Env) (sender : String) (nonce : ℕ) (v : String) (s : State) (out : State × Response)
      → submit_proof cw env sender nonce v s ≡ ok out
      → NoBurn s out
  unfolding submit_proof respond
  submit_proof-NoBurn env sender nonce v s out h = ground arith

  pub reconcile-NoBurn :
      (env : Env) (s : State) (out : State × Response) → reconcile cw env s ≡ ok out → NoBurn s out
  unfolding reconcile respond
  reconcile-NoBurn env s out h = ground arith

  pub withdraw_unbonded-NoBurn :
      (env : Env) (user receiver : String) (s : State) (out : State × Response)
      → withdraw_unbonded cw env user receiver s ≡ ok out
      → NoBurn s out
  unfolding withdraw_unbonded respond
  withdraw_unbonded-NoBurn env user receiver s out h = ground arith

  pub withdraw_unbonded_admin-NoBurn :
      (env : Env) (user receiver : String) (s : State) (out : State × Response)
      → withdraw_unbonded_admin cw env user receiver s ≡ ok out
      → NoBurn s out
  unfolding withdraw_unbonded_admin respond
  withdraw_unbonded_admin-NoBurn env user receiver s out h =
      ground (arith, withdraw_unbonded-NoBurn env receiver receiver s out)
