-- ===== src/Miner.antt =====
-- packages/dpow-browser-miner/src/lib.rs: the search for a nonce. SHA-256 with the hex digits of its
-- result is a parameter.
pub mod First
pub mod Accepted
pub mod Cli
pub mod Hash
use joe_liquid_staking.Prelude.{
  ℕ, zero, suc, ◌-◌, String, Bool, true, false, ◌||◌, Option, none, some, List, ◌++◌, Result, ok,
  err, ◌>>=◌, leb, if◌then◌else◌, as_bytes, le_bytes, add64, sub_word,
}
use text.Mathlib.Text.{starts_with}

pub record MinedProof : Type 0 where
  pub nonce : ℕ
  pub hash : String
  pub success : Bool

-- `difficulty` times `push('0')`.
unfoldable pub difficulty_string : ℕ → String
difficulty_string zero = ""
difficulty_string (suc difficulty) = String.◌∷◌ "0" (difficulty_string difficulty)

-- The next turn of the loop, where `nonce += 1` does not overflow.
unfoldable pub next_turn : Result ℕ → (ℕ → Option (Result MinedProof)) → Option (Result MinedProof)
next_turn (err e) turn = some (err e)
next_turn (ok next) turn = turn next

-- The end of a turn of the loop: `tried` is `nonce - start_nonce`, `next` is `nonce + 1`.
unfoldable pub mine_turn :
    MinedProof
    → ℕ
    → Result ℕ
    → Result ℕ
    → (ℕ → Option (Result MinedProof))
    → Option (Result MinedProof)
unfolding next_turn
mine_turn proof max_tries (err e) next turn = some (err e)
mine_turn proof max_tries (ok tried) next turn =
    if proof.success || leb max_tries tried then some (ok proof) else next_turn next turn

module _ (sha256_hex : List ℕ → String) where
  unfoldable pub entropy_hash : String → String → ℕ → String
  entropy_hash miner_entropy miner_address nonce =
      sha256_hex (as_bytes miner_entropy ++ (as_bytes miner_address ++ le_bytes 8 nonce))

  -- The proof for a nonce.
  unfoldable pub try_nonce : String → String → ℕ → ℕ → MinedProof
  unfolding entropy_hash
  try_nonce miner_entropy miner_address difficulty nonce =
      let hash = entropy_hash miner_entropy miner_address nonce in
      record {
        nonce = nonce;
        hash = hash;
        success = starts_with hash (difficulty_string difficulty);
      }

  -- The loop of `mine`, at most `fuel` times; none where it would go on.
  unfoldable pub mine_loop : String → String → ℕ → ℕ → ℕ → ℕ → ℕ → Option (Result MinedProof)
  unfolding try_nonce mine_turn
  mine_loop miner_entropy miner_address difficulty start_nonce max_tries zero nonce = none
  mine_loop miner_entropy miner_address difficulty start_nonce max_tries (suc fuel) nonce =
      mine_turn (try_nonce miner_entropy miner_address difficulty nonce) max_tries
        (sub_word nonce start_nonce) (add64 nonce 1)
        (λ next. mine_loop miner_entropy miner_address difficulty start_nonce max_tries fuel next)

  unfoldable pub mine : String → String → ℕ → ℕ → ℕ → Option (Result MinedProof)
  unfolding mine_loop
  mine miner_entropy miner_address difficulty start_nonce max_tries =
      mine_loop miner_entropy miner_address difficulty start_nonce max_tries (suc max_tries)
        start_nonce
