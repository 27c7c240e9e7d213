-- ===== src/Ledger/Submit.antt =====
-- What a successful `submit_batch` computes on its way, and that it keeps the books.
pub mod Orders
use joe_liquid_staking.Prelude.{
  ℕ, ◌+◌, ◌≤◌, ◌≡◌, refl, sym, ap, String, false, some, List, [], ◌∷◌, ◌++◌, map, ok, arith,
  bind_ok, ok-injective, load, load-eq-ok, add64, fit-eq-ok, u64_mod, panic, guard-eq-ok, leb,
  leb→le,
}
use mathlib.Core.Path.{subst}
use joe_liquid_staking.Types.{
  Cosmwasm, Env, PendingBatch, Batch, UnbondRequest, Delegation, Undelegation, SubMsg, CosmosMsg,
  WasmBody, undelegation_msg, Response, respond,
}
use joe_liquid_staking.State.{State, find_batch, save_batch}
use joe_liquid_staking.Helpers.{query_delegations, query_cw20_total_supply, get_denom_balance}
use joe_liquid_staking.Math.{compute_unbond_amount, compute_undelegations}
use joe_liquid_staking.Math.Undelegate.{undelegated, compute_undelegations-eq-ok}
use joe_liquid_staking.Execute.Bond.{reply_register_received_coins}
use joe_liquid_staking.Execute.Unbond.{submit_batch, submitted_batch}
use joe_liquid_staking.Ledger.{IsBalanced, BooksOf, Balanced}
use joe_liquid_staking.Ledger.Maps.{find-save_batch, save_batch-one}

submitted_books :
    (pending : PendingBatch) (batches : List Batch) (requests : List UnbondRequest)
    (amount end_time start_time : ℕ)
    → IsBalanced pending batches requests
    → IsBalanced
        (record { id = pending.id + 1; usteak_to_burn = 0; est_unbond_start_time = start_time })
        (save_batch (submitted_batch pending amount end_time) batches)
        requests
unfolding submitted_batch
submitted_books pending batches requests amount end_time start_time books =
    let b = submitted_batch pending amount end_time in
    record {
      queued = books.later (pending.id + 1) (omega arith);
      later = λ id h. books.later id (omega arith);
      shared =
          λ id c e. ground (arith, find-save_batch id b batches, books.queued, books.shared id c);
      fresh = λ id h. ground (arith, find-save_batch id b batches, books.fresh id);
      one_batch = λ id. save_batch-one b batches id (books.one_batch id);
      one_request = books.one_request;
    }

-- The messages of a submission: an undelegation each, and the burn of the queued tokens.
abbrev pub submit_msgs : Env → String → ℕ → List Undelegation → List SubMsg
submit_msgs env token burn us =
    map
      (λ u. SubMsg.reply_on_success (undelegation_msg u env.contract) reply_register_received_coins)
      us
    ++ SubMsg.plain (CosmosMsg.wasm_execute token (WasmBody.cw20_burn burn) []) ∷ []

-- What a successful submission computed on its way, and the storage and messages it ended with.
pub record Submission (cw : Cosmwasm) (env : Env) (s : State) (out : State × Response)
    : Type 0 where
  pub pending : PendingBatch
  pub token : String
  pub denom : String
  pub validators : List String
  pub delegations : List Delegation
  pub supply : ℕ
  pub amount : ℕ
  pub undelegations : List Undelegation
  pub end_time : ℕ
  pub start_time : ℕ
  pub unbond_period : ℕ
  pub epoch_period : ℕ
  pub denom_is : s.denom ≡ some denom
  pub token_is : s.steak_token ≡ some token
  pub unbond_is : s.unbond_period ≡ some unbond_period
  pub epoch_is : s.epoch_period ≡ some epoch_period
  pub ends : end_time ≡ env.time + unbond_period
  pub starts : start_time ≡ env.time + epoch_period
  pub loaded : s.pending_batch ≡ some pending
  pub listed : s.validators ≡ some validators
  pub due : pending.est_unbond_start_time ≤ env.time
  pub queried : query_delegations cw validators env.contract denom ≡ ok delegations
  pub supplied : query_cw20_total_supply cw token ≡ ok supply
  pub unbonded : compute_unbond_amount cw supply pending.usteak_to_burn delegations ≡ ok amount
  pub computed : compute_undelegations amount delegations denom ≡ ok undelegations
  pub batches :
      out.0.previous_batches
      ≡ save_batch (submitted_batch pending amount end_time) s.previous_batches
  pub next :
      out.0.pending_batch
      ≡ some
          (record { id = pending.id + 1; usteak_to_burn = 0; est_unbond_start_time = start_time })
  pub requests : out.0.unbond_requests ≡ s.unbond_requests
  pub messages : out.1.messages ≡ submit_msgs env token pending.usteak_to_burn undelegations

pub submit_batch-eq-ok :
    (cw : Cosmwasm) (env : Env) (s : State) (out : State × Response)
    → submit_batch cw env s ≡ ok out
    → Submission cw env s out
unfolding submit_batch respond
submit_batch-eq-ok cw env s out h = bind_ok (load s.denom) _ h λ denom en_d h.
    bind_ok (load s.steak_token) _ h λ token et h.
      bind_ok (load s.validators) _ h λ validators ev h.
        bind_ok (load s.unbond_period) _ h λ unbond_period eb h.
          bind_ok (load s.pending_batch) _ h λ pending ep h.
            let (due, h) = guard-eq-ok (leb pending.est_unbond_start_time env.time) _ _ h in
            bind_ok (query_delegations cw validators env.contract denom) _ h λ delegations ed h.
              bind_ok (query_cw20_total_supply cw token) _ h λ supply es h.
                bind_ok (compute_unbond_amount cw supply pending.usteak_to_burn delegations) _ h
                  λ amount ea h.
                    bind_ok (compute_undelegations amount delegations denom) _ h λ us eu h.
                      bind_ok (add64 env.time unbond_period) _ h λ end_time ee h.
                        bind_ok (load s.epoch_period) _ h λ epoch_period eo h.
                          bind_ok (add64 pending.id 1) _ h λ next_id en h.
                            bind_ok (add64 env.time epoch_period) _ h λ start_time es_t h.
                              bind_ok (get_denom_balance cw env.contract denom) _ h λ balance _ h.
                                let done = ok-injective h in
                                record {
                                  pending = pending;
                                  token = token;
                                  denom = denom;
                                  validators = validators;
                                  delegations = delegations;
                                  supply = supply;
                                  amount = amount;
                                  undelegations = us;
                                  end_time = end_time;
                                  start_time = start_time;
                                  unbond_period = unbond_period;
                                  epoch_period = epoch_period;
                                  denom_is = load-eq-ok s.denom denom en_d;
                                  token_is = load-eq-ok s.steak_token token et;
                                  unbond_is = load-eq-ok s.unbond_period unbond_period eb;
                                  epoch_is = load-eq-ok s.epoch_period epoch_period eo;
                                  ends =
                                      (fit-eq-ok u64_mod panic (env.time + unbond_period)
                                        {y = end_time} ee).0;
                                  starts =
                                      (fit-eq-ok u64_mod panic (env.time + epoch_period)
                                        {y = start_time} es_t).0;
                                  loaded = load-eq-ok s.pending_batch pending ep;
                                  listed = load-eq-ok s.validators validators ev;
                                  due = leb→le _ _ due;
                                  queried = ed;
                                  supplied = es;
                                  unbonded = ea;
                                  computed = eu;
                                  batches =
                                      ap (λ (o : State × Response). o.0.previous_batches)
                                        (sym done);
                                  next =
                                      rw
                                        (← (fit-eq-ok u64_mod panic (pending.id + 1) {y = next_id}
                                          en).0)
                                        (ap (λ (o : State × Response). o.0.pending_batch)
                                          (sym done));
                                  requests =
                                      ap (λ (o : State × Response). o.0.unbond_requests) (sym done);
                                  messages = ap (λ (o : State × Response). o.1.messages) (sym done);
                                }

-- Submitting the pending batch keeps the books balanced.
pub submit_batch-Balanced :
    (cw : Cosmwasm) (env : Env) (s : State) (out : State × Response)
    → Balanced s
    → submit_batch cw env s ≡ ok out
    → Balanced out.0
submit_batch-Balanced cw env s out books h =
    let done = submit_batch-eq-ok cw env s out h in
    rw (done.batches, done.next, done.requests)
      (submitted_books done.pending s.previous_batches s.unbond_requests done.amount done.end_time
        done.start_time
        (subst (λ o. BooksOf o s.previous_batches s.unbond_requests) done.loaded books))
