-- ===== src/Execute/Mining/Reward.antt =====
-- What an accepted proof is rewarded with, and when none is accepted: `submit_proof` of
-- contracts/hub/src/execute.rs.
use joe_liquid_staking.Prelude.{
  ℕ, zero, suc, ◌+◌, ◌<◌, ◌≡◌, ◌≢◌, refl, sym, ap, ◌∙◌, String, true, some, List, [], ◌∷◌, ok,
  arith, str_eq, eq_iff, eq_refl, if◌then◌else◌,
}
use Prim.Native.String.{compare, count}
use text.Mathlib.Text.{starts_with, is_lt}
use text.Mathlib.TextEquality.{starts_with_iff}
use text.Mathlib.TextLemmas.{length-append, length-cons}
use joe_liquid_staking.Types.{
  Cosmwasm, IsCosmwasm, Env, SubMsg, CosmosMsg, WasmBody, ExecuteMsg, FeeType, Response,
}
use joe_liquid_staking.Store.Laws.{find-put}
use joe_liquid_staking.State.{State, find_power, save_power}
use joe_liquid_staking.Execute.Mining.{
  last_mined_block, compute_miner_proof, hash_pair, create_difficulty_prefix, submit_proof,
}
use joe_liquid_staking.Execute.Mining.Proof.{power_of, submit_proof-eq-ok}

-- The power that another validator has after a save.
power_of-save :
    (v other : String) (power : ℕ) (powers : List (String × ℕ))
    → power_of other (save_power (v, power) powers)
      ≡ (if str_eq v other then power else power_of other powers)
unfolding find_power save_power
power_of-save v other power powers = ground (
  arith,
  find-put (λ (a b : String × ℕ). str_eq a.0 b.0) (λ (a b : String × ℕ). is_lt (compare a.0 b.0))
      (λ (p : String × ℕ). str_eq p.0 other) (v, power)
      (λ x h. ap (str_eq x.0) (sym ((eq_iff v other).0 h))) (λ x h k. rw ((eq_iff x.0 v).0 k) h)
      powers,
)

-- What an accepted proof is rewarded with.
abbrev pub Rewarded : Cosmwasm → Env → String → ℕ → String → State → State × Response → Type 0
Rewarded cw env sender nonce address s out =
    (validator : String) × (entropy : String) × (draft : String) × (difficulty : ℕ)
    × (last_block : ℕ) × (blocks : ℕ) × (total_power : ℕ) × (cw.query_validator address
        ≡ ok (some validator))
    × (s.miner_entropy ≡ some entropy)
    × (s.miner_entropy_draft ≡ some draft)
    × (s.miner_difficulty ≡ some difficulty)
    × (s.total_mining_power ≡ some total_power)
    × (last_mined_block env s ≡ ok last_block)
    × (last_block + blocks ≡ env.height)
    × (starts_with (compute_miner_proof cw entropy sender nonce)
          (create_difficulty_prefix difficulty)
        ≡ true)
    × (power_of validator out.0.validator_mining_powers
        ≡ power_of validator s.validator_mining_powers + blocks)
    × ((other : String)
        → other ≢ validator
        → power_of other out.0.validator_mining_powers ≡ power_of other s.validator_mining_powers)
    × (out.0.total_mining_power ≡ some (total_power + blocks))
    × (out.0.miner_entropy
        ≡ some (hash_pair cw draft (compute_miner_proof cw entropy sender nonce)))
    × (out.0.miner_entropy_draft ≡ some (compute_miner_proof cw entropy sender nonce))
    × (out.0.fee_account ≡ some sender)
    × (out.0.fee_account_type ≡ some FeeType.wallet)
    × (out.0.miner_last_mined_timestamp ≡ some env.time)
    × (out.0.miner_last_mined_block ≡ some env.height)
    × (out.1.messages
        ≡ SubMsg.plain (CosmosMsg.wasm_execute env.contract (WasmBody.hub ExecuteMsg.harvest) [])
          ∷ [])

-- An accepted proof hashes, with the stored entropy and its sender, to a text that begins with as
-- many zeros as the stored difficulty. It gives the validator that the staking module names for the
-- address one unit of mining power for each block since the last proof, the total as much, and no
-- other validator anything. It rotates the entropies, makes the sender the fee account, a wallet,
-- stamps the time and the height, and sends one message, a harvest, to the contract itself.
pub submit_proof_accepts :
    (cw : Cosmwasm) (env : Env) (sender : String) (nonce : ℕ) (address : String) (s : State)
    (out : State × Response)
    → submit_proof cw env sender nonce address s ≡ ok out
    → Rewarded cw env sender nonce address s out
submit_proof_accepts cw env sender nonce address s out h =
    let done = submit_proof-eq-ok cw env sender nonce address s out h in
    let v = done.validator in
    let powers = s.validator_mining_powers in
    let power = power_of v powers + done.blocks in
    (
      v,
      done.entropy,
      done.draft,
      done.difficulty,
      done.last_block,
      done.blocks,
      done.total_power,
      done.found,
      done.entropy_stored,
      done.draft_stored,
      done.difficulty_stored,
      done.power_stored,
      done.block_loaded,
      done.elapsed,
      done.meets,
      ap (λ (t : State). power_of v t.validator_mining_powers) done.storage
          ∙ ground (arith, power_of-save v v power powers, eq_refl v),
      λ other ne.
          ap (λ (t : State). power_of other t.validator_mining_powers) done.storage
          ∙ ground (arith, power_of-save v other power powers, eq_iff v other, ne),
      ap (λ (t : State). t.total_mining_power) done.storage,
      ap (λ (t : State). t.miner_entropy) done.storage,
      ap (λ (t : State). t.miner_entropy_draft) done.storage,
      ap (λ (t : State). t.fee_account) done.storage,
      ap (λ (t : State). t.fee_account_type) done.storage,
      ap (λ (t : State). t.miner_last_mined_timestamp) done.storage,
      ap (λ (t : State). t.miner_last_mined_block) done.storage,
      done.messages,
    )

count-create_difficulty_prefix : (n : ℕ) → count (create_difficulty_prefix n) ≡ n
unfolding create_difficulty_prefix
count-create_difficulty_prefix zero = refl
count-create_difficulty_prefix (suc n) =
    length-cons _ (create_difficulty_prefix n) ∙ ap suc (count-create_difficulty_prefix n)

-- Above a difficulty of 64, the length of a digest, no proof is accepted.
pub submit_proof_unreachable :
    (cw : Cosmwasm)
    → IsCosmwasm cw
    → (env : Env) (sender : String) (nonce : ℕ) (address : String) (s : State) (d : ℕ)
    → s.miner_difficulty ≡ some d
    → 64 < d
    → (out : State × Response) → submit_proof cw env sender nonce address s ≢ ok out
unfolding compute_miner_proof
submit_proof_unreachable cw law env sender nonce address s d stored above out h =
    let done = submit_proof-eq-ok cw env sender nonce address s out h in
    let prefix = (starts_with_iff _ _).0 done.meets in
    let same : done.difficulty ≡ d = cc (done.difficulty_stored, stored) in
    absurd (
      omega (
        arith,
        ap count prefix.1,
        length-append (create_difficulty_prefix done.difficulty) prefix.0,
        count-create_difficulty_prefix done.difficulty,
        law.count-sha256_hex _,
        same,
      ))
