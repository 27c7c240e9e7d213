-- ===== src/Miner/Accepted.antt =====
-- A nonce found by `mine` of packages/dpow-browser-miner/src/lib.rs, sent to `submit_proof` of
-- contracts/hub/src/execute.rs.
use joe_liquid_staking.Prelude.{
  ℕ, ◌+◌, ◌-◌, ◌≤◌, ◌<◌, ◌≡◌, ◌∙◌, sym, ap, refl, String, true, Bool-cases, inl, inr, some, List,
  [], ◌∷◌, ok, arith, ltb, leb, ◌&&◌, load, sub_word, sub_word_eq, checked_sub, checked_add128,
  fit_eq, overflow, u64_mod, u128_mod, total, continues,
}
use joe_liquid_staking.Types.{Cosmwasm, Env, FeeType, Response}
use joe_liquid_staking.State.{State, find_power}
use joe_liquid_staking.Contract.Invariant.{IsSound}
use joe_liquid_staking.Execute.Mining.{update_difficulty, last_mined_block, submit_proof}
use joe_liquid_staking.Execute.Mining.Proof.{power_of, stored_power}
use joe_liquid_staking.Miner.{MinedProof, mine}
use joe_liquid_staking.Miner.First.{meets, proof_of, mine-IsFirst}

-- The storage after `instantiate` or a proof, at a time and a height that are not before the last
-- proof's, where no number is at its largest.
pub record IsOpen (env : Env) (s : State) (entropy : String) (difficulty : ℕ) : Type 0 where
  pub draft : String
  pub account_type : FeeType
  pub last : ℕ
  pub block : ℕ
  pub total_power : ℕ
  pub entropy_is : s.miner_entropy ≡ some entropy
  pub draft_is : s.miner_entropy_draft ≡ some draft
  pub account_is : s.fee_account_type ≡ some account_type
  pub difficulty_is : s.miner_difficulty ≡ some difficulty
  pub last_is : s.miner_last_mined_timestamp ≡ some last
  pub block_is : s.miner_last_mined_block ≡ some block
  pub total_is : s.total_mining_power ≡ some total_power
  pub later : last ≤ env.time
  pub above : block ≤ env.height
  pub harder_fits : difficulty + 1 < u64_mod
  pub power_fits : total_power + (env.height - block) < u128_mod

-- An update of the difficulty succeeds.
updates :
    (time last d : ℕ) (s : State)
    → s.miner_last_mined_timestamp ≡ some last
    → s.miner_difficulty ≡ some d
    → last ≤ time
    → d + 1 < u64_mod
    → (t : State) × (update_difficulty time true s ≡ ok t)
unfolding update_difficulty checked_sub
updates time last d s last_is d_is later fits = rw last_is (
    rw d_is (
      rw (sub_word_eq time last later) (elim (Bool-cases (ltb 300 (time - last) && ltb 1 d)) [
        | inl slow ↦ let positive : leb 1 d ≡ true = ground arith in rw slow (rw positive (_, refl))
        | inr not_slow ↦ elim (Bool-cases (ltb (time - last) 20 && true)) [
          | inl quick ↦ rw not_slow (rw quick (rw (fit_eq u64_mod overflow (d + 1) fits) (_, refl)))
          | inr not_quick ↦ rw not_slow (rw not_quick (_, refl))
        ]
      ])))

-- A validator's power is at most the sum of all powers.
power-le : (v : String) (powers : List (String × ℕ)) → power_of v powers ≤ total (λ p. p.1) powers
unfolding find_power
power-le v [] = omega arith
power-le v (p ∷ powers) = ground (arith, power-le v powers)

pub accepts :
    (cw : Cosmwasm) (env : Env) (sender : String) (nonce : ℕ) (address validator entropy : String)
    (difficulty : ℕ) (s : State)
    → IsSound s
    → IsOpen env s entropy difficulty
    → cw.query_validator address ≡ ok (some validator)
    → meets cw entropy sender difficulty nonce ≡ true
    → (out : State × Response) × (submit_proof cw env sender nonce address s ≡ ok out)
unfolding submit_proof last_mined_block
accepts cw env sender nonce address validator entropy difficulty s sound is_open known met =
    let blocks = env.height - is_open.block in
    let (t, updated) =
      updates env.time is_open.last difficulty s is_open.last_is is_open.difficulty_is is_open.later
        is_open.harder_fits in
    let powers : total (λ (p : String × ℕ). p.1) s.validator_mining_powers ≡ is_open.total_power =
      rw is_open.total_is at sound.powers in
    let own = power-le validator s.validator_mining_powers in
    let own_fits : power_of validator s.validator_mining_powers + blocks < u128_mod =
      omega (arith, is_open.power_fits) in
    let own_sum =
      ap (λ n. checked_add128 n blocks) (stored_power validator s.validator_mining_powers)
      ∙ fit_eq u128_mod overflow _ own_fits in
    let last_block : last_mined_block env s ≡ ok is_open.block = rw is_open.block_is refl in
    continues (cw.query_validator address) _ known (
      continues (load s.miner_entropy) _ (ap load is_open.entropy_is) (
        continues (load s.miner_entropy_draft) _ (ap load is_open.draft_is) (
          continues (load s.fee_account_type) _ (ap load is_open.account_is) (
            continues (load s.miner_difficulty) _ (ap load is_open.difficulty_is) (
              continues (last_mined_block env s) _ last_block (
                rw met (
                  continues (sub_word env.height is_open.block) _
                    (sub_word_eq env.height is_open.block is_open.above)
                    (continues (update_difficulty env.time true s) _ updated (
                      continues (checked_add128 _ blocks) _ own_sum (
                        continues (load s.total_mining_power) _ (ap load is_open.total_is) (
                          continues (checked_add128 is_open.total_power blocks) _
                            (fit_eq u128_mod overflow (is_open.total_power + blocks)
                              is_open.power_fits)
                            (_, refl))))))))))))

-- A proof that the browser's `mine` finds is accepted: in a sound storage that is open to a proof,
-- where `mine` ran on the stored entropy and difficulty and on the sender's address, over nonces of 64 bits, and
-- reports success, `submit_proof` with its nonce and a validator that the chain knows succeeds.
pub mined_proof_accepted :
    (cw : Cosmwasm) (env : Env) (sender address validator entropy : String)
    (difficulty start_nonce max_tries : ℕ) (s : State) (proof : MinedProof)
    → IsSound s
    → IsOpen env s entropy difficulty
    → cw.query_validator address ≡ ok (some validator)
    → start_nonce + max_tries < u64_mod
    → mine cw.sha256_hex entropy sender difficulty start_nonce max_tries ≡ some (ok proof)
    → proof.success ≡ true
    → (out : State × Response) × (submit_proof cw env sender proof.nonce address s ≡ ok out)
mined_proof_accepted cw env sender address validator entropy difficulty start_nonce max_tries s
      proof sound is_open known small mined success =
    let (n, found, _) = mine-IsFirst cw entropy sender difficulty start_nonce max_tries small in
    let same : proof ≡ proof_of cw entropy sender difficulty n = cc (mined, found) in
    let met : meets cw entropy sender difficulty n ≡ true =
      ap (λ (p : MinedProof). p.success) (sym same) ∙ success in
    let (out, e) =
      accepts cw env sender n address validator entropy difficulty s sound is_open known met in
    (out, ap (λ (p : MinedProof). submit_proof cw env sender p.nonce address s) same ∙ e)
