-- ===== src/Examples/Miner.antt =====
-- The miners of packages/ on concrete runs.
use joe_liquid_staking.Prelude.{sub_word}
use joe_liquid_staking.Execute.Mining.{compute_miner_proof, create_difficulty_prefix}
use joe_liquid_staking.Prelude.{
  ℕ, refl, some, true, List, [], ◌∷◌, map, All, find, ok, arith, ◌≡◌, String,
}
use mathlib.Core.Option.{map as map_option}
use text.Mathlib.Text.{starts_with}
use joe_liquid_staking.Types.{MinerParamsResponse}
use joe_liquid_staking.Miner.{mine, try_nonce, difficulty_string}
use joe_liquid_staking.Miner.First.{meets, proof_of, IsFirst, mine-IsFirst}
use joe_liquid_staking.Miner.Hash.{Search, encoded, search_pow, search_pow-find}
use joe_liquid_staking.Miner.Cli.{Thread, Poller}
use joe_liquid_staking.Miner.Cli.Moves.{Program, main, Run}
use joe_liquid_staking.Miner.Cli.Proofs.{IsBusy, Some, HoldsMined, program_fair}
use joe_liquid_staking.Miner.Cli.Race.{flight, ready, first_proof, all_threads_submit, IsHit}
use joe_liquid_staking.Miner.Accepted.{IsOpen, mined_proof_accepted}
use joe_liquid_staking.Types.{FeeType, Response}
use joe_liquid_staking.State.{State}
use joe_liquid_staking.Execute.Mining.{submit_proof}
use joe_liquid_staking.Examples.Contract.{storage-IsSound}
use joe_liquid_staking.Examples.{chain, env, storage}

mine-IsFirst_example :
    (n : ℕ) × (mine chain.sha256_hex "entropy" "alice" 2 5 3
      ≡ some (ok (proof_of chain "entropy" "alice" 2 n)))
    × IsFirst (λ nonce. meets chain "entropy" "alice" 2 nonce) 5 8 n
mine-IsFirst_example = mine-IsFirst chain "entropy" "alice" 2 5 3 (omega arith)

abbrev params : MinerParamsResponse
params = record { entropy = "entropy"; difficulty = 2 }

abbrev both : Program
both = record {
  state = flight (ready params);
  threads =
      map (λ k. Thread.submitting (first_proof chain.sha256_hex "alice" 500 params k)) (0 ∷ 1 ∷ []);
  poller = Poller.asking;
}

hits : All (IsHit chain.sha256_hex "alice" 500 params) (0 ∷ 1 ∷ [])
unfolding try_nonce difficulty_string
hits = ((omega arith, refl), ((omega arith, refl), tt))

-- Two threads.
all_threads_submit_example :
    Run chain.sha256_hex "alice" 500 (main chain.sha256_hex "alice" 500 2) both
all_threads_submit_example =
    all_threads_submit chain.sha256_hex "alice" 500 params 1 (omega arith) (omega arith) hits

-- The same run.
run : Run chain.sha256_hex "alice" 500 (main chain.sha256_hex "alice" 500 2) both
run = all_threads_submit chain.sha256_hex "alice" 500 params 1 (omega arith) (omega arith) hits

program_fair_example :
    (both.state.tx_in_flight ≡ true → Some IsBusy both.threads)
    × All (HoldsMined chain.sha256_hex "alice" 500) both.threads
program_fair_example = program_fair chain.sha256_hex "alice" 500 2 both run

abbrev text_of : String → List ℕ → String
text_of hrp bytes = "dpow1j0exyz"

search_pow-find_example :
    search_pow (λ bytes. bytes) text_of (1 ∷ []) 5 ((7 ∷ []) ∷ [])
    ≡ map_option
        (λ nonce. Search.mined (encoded (λ bytes. bytes) text_of (1 ∷ []) nonce) nonce)
        (find
          (λ nonce. starts_with (encoded (λ bytes. bytes) text_of (1 ∷ []) nonce) "dpow1j0e")
          ((7 ∷ []) ∷ []))
search_pow-find_example = search_pow-find (λ bytes. bytes) text_of (1 ∷ []) 5 ((7 ∷ []) ∷ [])

pub storage-IsOpen : IsOpen env storage "entropy" 2
storage-IsOpen = record {
  draft = "draft";
  account_type = FeeType.wallet;
  last = 1990;
  block = 25;
  total_power = 7;
  entropy_is = refl;
  draft_is = refl;
  account_is = refl;
  difficulty_is = refl;
  last_is = refl;
  block_is = refl;
  total_is = refl;
  later = omega arith;
  above = omega arith;
  harder_fits = omega arith;
  power_fits = omega arith;
}

mined_proof_accepted_example :
    (out : State × Response) × (submit_proof chain env "alice" 5 "v1" storage ≡ ok out)
unfolding mine sub_word difficulty_string compute_miner_proof create_difficulty_prefix
mined_proof_accepted_example =
    mined_proof_accepted chain env "alice" "v1" "v1" "entropy" 2 5 3 storage
      (proof_of chain "entropy" "alice" 2 5) storage-IsSound storage-IsOpen refl (omega arith) refl
      refl
