-- ===== src/Execute/Mining/Proof.antt =====
-- `submit_proof` of contracts/hub/src/execute.rs: what an accepted proof needs and what it changes.
use joe_liquid_staking.Prelude.{
  ℕ, ◌+◌, ◌≡◌, refl, sym, ap, ◌∙◌, generic_err, String, true, Option, some, none, List, [], ◌∷◌, ok,
  arith, bind_ok, ok-injective, guard-eq-ok, ok_or, load, load-eq-ok, unwrap_or, sub_word,
  sub_word-eq-ok, checked_add128, fit-eq-ok, u128_mod, overflow,
}
use mathlib.Core.Option
use mathlib.Core.Path.{subst}
use text.Mathlib.Text.{starts_with}
use joe_liquid_staking.Types.{
  Cosmwasm, Env, SubMsg, CosmosMsg, WasmBody, ExecuteMsg, FeeType, Response, respond,
}
use joe_liquid_staking.Store.{measure}
use joe_liquid_staking.State.{State, find_power, save_power}
use joe_liquid_staking.Execute.Mining.{
  update_difficulty, last_mined_block, compute_miner_proof, hash_pair, create_difficulty_prefix,
  submit_proof,
}
use joe_liquid_staking.Execute.Mining.Difficulty.{Next, update_difficulty-eq-ok}

-- A validator's mining power; none stored is none.
abbrev pub power_of : String → List (String × ℕ) → ℕ
power_of v powers = measure (λ (p : String × ℕ). p.1) (find_power v powers)

-- What an accepted proof computed on its way, and how it left the storage.
pub record Accepted (cw : Cosmwasm) (env : Env) (sender : String) (nonce : ℕ) (address : String)
    (s : State) (out : State × Response) : Type 0 where
  pub validator : String
  pub entropy : String
  pub draft : String
  pub difficulty : ℕ
  pub difficulty' : ℕ
  pub last : ℕ
  pub duration : ℕ
  pub last_block : ℕ
  pub blocks : ℕ
  pub total_power : ℕ
  pub found : cw.query_validator address ≡ ok (some validator)
  pub entropy_stored : s.miner_entropy ≡ some entropy
  pub draft_stored : s.miner_entropy_draft ≡ some draft
  pub difficulty_stored : s.miner_difficulty ≡ some difficulty
  pub last_stored : s.miner_last_mined_timestamp ≡ some last
  pub block_loaded : last_mined_block env s ≡ ok last_block
  pub power_stored : s.total_mining_power ≡ some total_power
  pub meets :
      starts_with
        (compute_miner_proof cw entropy sender nonce)
        (create_difficulty_prefix difficulty)
      ≡ true
  pub span : last + duration ≡ env.time
  pub elapsed : last_block + blocks ≡ env.height
  pub next : Next duration true difficulty difficulty'
  pub messages :
      out.1.messages
      ≡ SubMsg.plain (CosmosMsg.wasm_execute env.contract (WasmBody.hub ExecuteMsg.harvest) []) ∷ []
  pub storage : out.0 ≡ record s {
    miner_difficulty = some difficulty';
    validator_mining_powers =
        save_power
          (validator, power_of validator s.validator_mining_powers + blocks)
          s.validator_mining_powers;
    total_mining_power = some (total_power + blocks);
    miner_entropy = some (hash_pair cw draft (compute_miner_proof cw entropy sender nonce));
    miner_entropy_draft = some (compute_miner_proof cw entropy sender nonce);
    miner_last_mined_timestamp = some env.time;
    miner_last_mined_block = some env.height;
    fee_account_type = some FeeType.wallet;
    fee_account = some sender;
  }

pub stored_power :
    (v : String) (powers : List (String × ℕ))
    → unwrap_or (Option.map (λ (p : String × ℕ). p.1) (find_power v powers)) 0 ≡ power_of v powers
stored_power v powers = ground arith

pub submit_proof-eq-ok :
    (cw : Cosmwasm) (env : Env) (sender : String) (nonce : ℕ) (address : String) (s : State)
    (out : State × Response)
    → submit_proof cw env sender nonce address s ≡ ok out
    → Accepted cw env sender nonce address s out
unfolding submit_proof respond
submit_proof-eq-ok cw env sender nonce address s out h =
    bind_ok (cw.query_validator address) _ h λ found ef h.
      bind_ok (ok_or found _) _ h λ validator ev h.
        bind_ok (load s.miner_entropy) _ h λ entropy ee h.
          bind_ok (load s.miner_entropy_draft) _ h λ draft ed h.
            bind_ok (load s.fee_account_type) _ h λ _ _ h.
              bind_ok (load s.miner_difficulty) _ h λ difficulty ei h.
                bind_ok (last_mined_block env s) _ h λ last_block eb h.
                  let proof = compute_miner_proof cw entropy sender nonce in
                  let (meets, h) =
                    guard-eq-ok (starts_with proof (create_difficulty_prefix difficulty)) _ _ h in
                  bind_ok (sub_word env.height last_block) _ h λ blocks el h.
                    bind_ok (update_difficulty env.time true s) _ h λ s1 eu h.
                      bind_ok
                        (checked_add128
                          (unwrap_or
                            (Option.map (λ (p : String × ℕ). p.1)
                              (find_power validator s.validator_mining_powers))
                            0)
                          blocks)
                        _ h
                        λ power ep h. bind_ok (load s.total_mining_power) _ h λ total_power et h.
                          bind_ok (checked_add128 total_power blocks) _ h λ total_power' es h.
                            let (last, d, duration, d', el', ed', span, next, s1_eq) =
                              update_difficulty-eq-ok env.time true s s1 eu in
                            let same_difficulty : d ≡ difficulty =
                              cc (ed', load-eq-ok s.miner_difficulty difficulty ei) in
                            let power_eq : power
                                ≡ power_of validator s.validator_mining_powers + blocks =
                              (fit-eq-ok u128_mod overflow _ {y = power} ep).0
                              ∙ ap (λ (n : ℕ). n + blocks)
                                  (stored_power validator s.validator_mining_powers) in
                            let total_eq : total_power' ≡ total_power + blocks =
                              (fit-eq-ok u128_mod overflow (total_power + blocks) {y = total_power'}
                                es).0 in
                            let done = ok-injective h in
                            record {
                              validator = validator;
                              entropy = entropy;
                              draft = draft;
                              difficulty = difficulty;
                              difficulty' = d';
                              last = last;
                              duration = duration;
                              last_block = last_block;
                              blocks = blocks;
                              total_power = total_power;
                              found = ef ∙ ap ok (found_some found validator ev);
                              entropy_stored = load-eq-ok s.miner_entropy entropy ee;
                              draft_stored = load-eq-ok s.miner_entropy_draft draft ed;
                              difficulty_stored = load-eq-ok s.miner_difficulty difficulty ei;
                              last_stored = el';
                              block_loaded = eb;
                              power_stored = load-eq-ok s.total_mining_power total_power et;
                              meets = meets;
                              span = span;
                              elapsed =
                                  omega
                                    (arith, sub_word-eq-ok env.height last_block {y = blocks} el);
                              next = subst (λ x. Next duration true x d') same_difficulty next;
                              messages = ap (λ (o : State × Response). o.1.messages) (sym done);
                              storage = rw (← done) (rw (s1_eq, power_eq, total_eq) refl);
                            }
  where
    found_some :
        (o : Option String) (v : String)
        → ok_or o (generic_err "validator address not found in staking module") ≡ ok v
        → o ≡ some v
    found_some none v e = cc
    found_some (some w) v e = cc
