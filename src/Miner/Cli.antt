-- ===== src/Miner/Cli.antt =====
-- packages/dpow-miner-cli/src/main.rs: the threads that share `State` behind a mutex. A move is one
-- lock of the mutex by one thread; sleeping and printing are left out, and running `joed` is the
-- choice of what it answers.
pub mod Joed
pub mod Moves
pub mod Proofs
pub mod Picks
pub mod Race
use joe_liquid_staking.Prelude.{
  ℕ, zero, suc, ◌+◌, ◌*◌, ◌%◌, String, Bool, true, false, ◌||◌, not, Option, none, some, List, [],
  ◌∷◌, if◌then◌else◌, ltb, ◌==◌, u64_mod,
}
use joe_liquid_staking.Types.{MinerParamsResponse}
use joe_liquid_staking.Miner.{MinedProof, try_nonce}

pub record State : Type 0 where
  pub miner_params : MinerParamsResponse
  pub tx_in_flight : Bool
  pub miner_params_loaded : Bool

-- What `main` puts behind the mutex.
abbrev pub initial : State
initial = record {
  miner_params = record {
    entropy = "0x0000000000000000000000000000000000000000000000000000000000000000";
    difficulty = 0;
  };
  tx_in_flight = false;
  miner_params_loaded = false;
}

-- Where a mining thread is: in the loop of `mine` before each of its three locks, in the loop of
-- `create_tokio_handler` before and after the test of `tx_in_flight` and while `submit_proof` runs;
-- `stopped` and `failed` are a thread that panicked, `failed` in `submit_proof`.
pub data Thread : Type 0 where
  checking_flight checking_loaded reading_params : ℕ → Thread
  found passed submitting : MinedProof → Thread
  stopped failed : Thread

module _ (sha256_hex : List ℕ → String) (miner_address : String) (speed : ℕ) where
  -- `mine(last_nonce + 1, ..)` up to its loop: the delay wants a speed of at most 1000, and
  -- `nonce % delay_increment` one that is not 0.
  unfoldable pub start_mine : ℕ → Thread
  start_mine last_nonce =
      if ltb (last_nonce + 1) u64_mod
      then if ltb 1000 speed || speed == 0
        then Thread.stopped
        else Thread.checking_flight (last_nonce + 1)
      else Thread.stopped

  -- Thread `i` of `create_tokio_handler`.
  unfoldable pub create_tokio_handler : ℕ → Thread
  unfolding start_mine
  create_tokio_handler i =
      if ltb (i * 100000000000) u64_mod then start_mine (i * 100000000000) else Thread.stopped

  -- The end of a turn of the loop of `mine`, with the parameters read.
  unfoldable pub hash_nonce : MinerParamsResponse → ℕ → Thread
  unfolding try_nonce
  hash_nonce params nonce =
      let proof = try_nonce sha256_hex params.entropy miner_address params.difficulty nonce in
      if proof.success then Thread.found proof else Thread.checking_flight ((nonce + 1) % u64_mod)

  -- The first operand of the condition under which `mine` waits, and the second one.
  unfoldable pub check_flight : State → ℕ → Thread
  check_flight s nonce =
      if s.tx_in_flight then Thread.checking_flight nonce else Thread.checking_loaded nonce

  unfoldable pub check_loaded : State → ℕ → Thread
  check_loaded s nonce =
      if s.miner_params_loaded then Thread.reading_params nonce else Thread.checking_flight nonce

  -- The next move of a thread; `sent` says that `joed` could be run to submit the proof.
  unfoldable pub advance : Bool → State → Thread → State × Thread
  unfolding start_mine hash_nonce check_flight check_loaded
  advance sent s (Thread.checking_flight nonce) = (s, check_flight s nonce)
  advance sent s (Thread.checking_loaded nonce) = (s, check_loaded s nonce)
  advance sent s (Thread.reading_params nonce) = (s, hash_nonce s.miner_params nonce)
  advance sent s (Thread.found proof) = (
    s,
    if proof.success
        then (if s.tx_in_flight then start_mine proof.nonce else Thread.passed proof)
        else start_mine proof.nonce,
  )
  advance sent s (Thread.passed proof) = (record s { tx_in_flight = true }, Thread.submitting proof)
  advance sent s (Thread.submitting proof) = elim sent [
    | true ↦ (record s { tx_in_flight = false }, start_mine proof.nonce)
    | false ↦ (s, Thread.failed)
  ]
  advance sent s Thread.stopped = (s, Thread.stopped)
  advance sent s Thread.failed = (s, Thread.failed)

-- The polling thread: before it asks, between its two locks, and after a query that failed.
pub data Poller : Type 0 where
  asking loaded ended : Poller

-- A turn of the polling thread, with the answer of `poll_miner_params`.
unfoldable pub poll : Option MinerParamsResponse → State → Poller → State × Poller
poll (some params) s Poller.asking = (record s { miner_params = params }, Poller.loaded)
poll none s Poller.asking = (s, Poller.ended)
poll answer s Poller.loaded = (record s { miner_params_loaded = true }, Poller.asking)
poll answer s Poller.ended = (s, Poller.ended)

-- The threads that `main` spawns: those of the numbers from `i` on.
unfoldable pub handlers : (List ℕ → String) → String → ℕ → ℕ → ℕ → List Thread
unfolding create_tokio_handler
handlers sha256_hex miner_address speed i zero = []
handlers sha256_hex miner_address speed i (suc thread_count) =
    create_tokio_handler sha256_hex miner_address speed i
    ∷ handlers sha256_hex miner_address speed (suc i) thread_count
