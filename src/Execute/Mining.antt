-- ===== src/Execute/Mining.antt =====
-- `update_entropy`, `update_difficulty`, `submit_proof` and the proof hash of
-- contracts/hub/src/execute.rs.
pub mod Difficulty
pub mod Proof
pub mod Reward
use joe_liquid_staking.Prelude.{
  ℕ, zero, suc, ◌+◌, ◌-◌, ◌*◌, ◌/◌, ◌%◌, String, Bool, true, false, ◌&&◌, not, some, none, List, [],
  ◌∷◌, ◌++◌, Result, ok, err, overflow, generic_err, ◌>>=◌, ◌>>◌, guard, load, ok_or, unwrap_or,
  if◌then◌else◌, ltb, leb, ◌==◌, str_eq, sub_word, checked_sub, checked_add64, checked_add128,
  as_bytes, le_bytes,
}
use text.Mathlib.Text.{starts_with}
use mathlib.Core.Option
use joe_liquid_staking.Types.{
  Cosmwasm, Env, CosmosMsg, SubMsg, WasmBody, Value, Response, respond, FeeType, ExecuteMsg,
}
use joe_liquid_staking.State.{State, find_power, save_power}

abbrev pub target_mining_duration_floor_seconds : ℕ
target_mining_duration_floor_seconds = 20

abbrev pub target_mining_duration_ceiling_seconds : ℕ
target_mining_duration_ceiling_seconds = 300

-- As many zeros as the difficulty says.
unfoldable pub create_difficulty_prefix : ℕ → String
create_difficulty_prefix zero = ""
create_difficulty_prefix (suc difficulty) = String.◌∷◌ "0" (create_difficulty_prefix difficulty)

unfoldable pub update_difficulty : ℕ → Bool → State → Result State
update_difficulty block_time did_submit_proof s = do
  last_mined ← load s.miner_last_mined_timestamp
  difficulty ← load s.miner_difficulty
  mining_duration ← sub_word block_time last_mined
  if ltb target_mining_duration_ceiling_seconds mining_duration && ltb 1 difficulty
      then (do lower ← checked_sub difficulty 1; ok (record s { miner_difficulty = some lower }))
      else if ltb mining_duration target_mining_duration_floor_seconds && did_submit_proof
      then (do
        higher ← checked_add64 difficulty 1
        ok (record s { miner_difficulty = some higher }))
      else ok s

-- The height at which the last proof was mined; where none is stored, the previous height.
unfoldable pub last_mined_block : Env → State → Result ℕ
last_mined_block env s = elim s.miner_last_mined_block [
  | some block ↦ ok block
  | none ↦ sub_word env.height 1
]

module _ (cw : Cosmwasm) where
  unfoldable pub compute_miner_proof : String → String → ℕ → String
  unfolding as_bytes le_bytes
  compute_miner_proof miner_entropy miner_address nonce =
      cw.sha256_hex (as_bytes miner_entropy ++ (as_bytes miner_address ++ le_bytes 8 nonce))

  unfoldable pub hash_pair : String → String → String
  unfolding as_bytes
  hash_pair a b = cw.sha256_hex (as_bytes a ++ as_bytes b)

  unfoldable pub update_entropy : Env → String → State → Result (State × Response)
  unfolding hash_pair update_difficulty
  update_entropy env entropy s = do
    draft ← load s.miner_entropy_draft
    let next = hash_pair draft entropy
    s' ← update_difficulty env.time false (record s { miner_entropy_draft = some next })
    ok (
      s',
      record {
        messages = [];
        events = [];
        attributes =
            ("action", Value.text "steakhub/update_entropy")
            ∷ ("miner_entropy_draft", Value.text next)
            ∷ [];
      },
    )

  unfoldable pub submit_proof : Env → String → ℕ → String → State → Result (State × Response)
  unfolding hash_pair update_difficulty compute_miner_proof create_difficulty_prefix
      last_mined_block
  submit_proof env sender nonce validator_address s = do
    found ← cw.query_validator validator_address
    validator ← ok_or found (generic_err "validator address not found in staking module")
    miner_entropy ← load s.miner_entropy
    draft ← load s.miner_entropy_draft
    fee_account_type ← load s.fee_account_type
    difficulty ← load s.miner_difficulty
    last_block ← last_mined_block env s
    let entropy_hash = compute_miner_proof miner_entropy sender nonce
    guard (starts_with entropy_hash (create_difficulty_prefix difficulty))
        (generic_err "block hash does not meet difficulty requirement")
    blocks ← sub_word env.height last_block
    s1 ← update_difficulty env.time true s
    power ←
        checked_add128
          (unwrap_or
            (Option.map (λ (p : String × ℕ). p.1) (find_power validator s.validator_mining_powers))
            0)
          blocks
    total_power ← load s.total_mining_power
    total_power' ← checked_add128 total_power blocks
    ok (
      record s1 {
        validator_mining_powers = save_power (validator, power) s.validator_mining_powers;
        total_mining_power = some total_power';
        miner_entropy = some (hash_pair draft entropy_hash);
        miner_entropy_draft = some entropy_hash;
        miner_last_mined_timestamp = some env.time;
        miner_last_mined_block = some env.height;
        fee_account_type = some FeeType.wallet;
        fee_account = some sender;
      },
      respond
          (SubMsg.plain (CosmosMsg.wasm_execute env.contract (WasmBody.hub ExecuteMsg.harvest) [])
            ∷ [])
          [] "steakhub/submit_proof",
    )
