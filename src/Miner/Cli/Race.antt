-- ===== src/Miner/Cli/Race.antt =====
-- `create_tokio_handler` of packages/dpow-miner-cli/src/main.rs tests `tx_in_flight` and sets it
-- under two locks.
use joe_liquid_staking.Prelude.{
  ℕ, zero, suc, ◌+◌, ◌*◌, ◌≤◌, ◌<◌, ◌≡◌, refl, String, true, false, none, some, List, [], ◌∷◌, map,
  All, arith, u64_mod,
}
use mathlib.Core.Path.{subst}
use joe_liquid_staking.Store.Laws.{All-map}
use joe_liquid_staking.Types.{MinerParamsResponse}
use joe_liquid_staking.Miner.{MinedProof, try_nonce}
use joe_liquid_staking.Miner.Cli.{
  State, Thread, Poller, handlers, create_tokio_handler, start_mine, hash_nonce, advance, poll,
}
use joe_liquid_staking.Miner.Cli.Moves.{main, next, Move, Run}
use joe_liquid_staking.Miner.Cli.Picks.{
  Picks, tail-Picks, append_runs, head-Pick, map-Picks, Run-Picks,
}

abbrev pub numbers : ℕ → ℕ → List ℕ
numbers i zero = []
numbers i (suc n) = i ∷ numbers (suc i) n

abbrev pub flight : State → State
flight s = record s { tx_in_flight = true }

-- The state when the first answer to the queries is stored.
abbrev pub ready : MinerParamsResponse → State
ready params = record { miner_params = params; tx_in_flight = false; miner_params_loaded = true }

module _ (sha256_hex : List ℕ → String) (miner_address : String) (speed : ℕ) where
  module _ (params : MinerParamsResponse) where
    abbrev first_nonce : ℕ → ℕ
    first_nonce i = i * 100000000000 + 1

    -- The proof that thread `i` has for its first nonce.
    abbrev pub first_proof : ℕ → MinedProof
    first_proof i =
        try_nonce sha256_hex params.entropy miner_address params.difficulty (first_nonce i)

    -- The first nonce of thread `i` is a 64-bit number and meets the difficulty.
    abbrev pub IsHit : ℕ → Type 0
    IsHit i = (i * 100000000000 + 1 < u64_mod) × ((first_proof i).success ≡ true)

    module _ (good : 1 ≤ speed) (within : speed ≤ 1000) where
      handler-IsHit :
          (i : ℕ)
          → IsHit i
          → create_tokio_handler sha256_hex miner_address speed i
            ≡ Thread.checking_flight (first_nonce i)
      unfolding create_tokio_handler start_mine
      handler-IsHit i hit = ground arith

      handlers-IsHit :
          (i n : ℕ)
          → All IsHit (numbers i n)
          → handlers sha256_hex miner_address speed i n
            ≡ map (λ k. Thread.checking_flight (first_nonce k)) (numbers i n)
      unfolding handlers
      handlers-IsHit i zero h = refl
      handlers-IsHit i (suc n) h = rw (handler-IsHit i h.0, handlers-IsHit (suc i) n h.1) refl

    -- From the start of their searches all threads come to the test of the flag, and pass it.
    checking-Picks :
        (is : List ℕ)
        → All IsHit is
        → Picks sha256_hex miner_address speed
            (ready params)
            (map (λ k. Thread.checking_flight (first_nonce k)) is)
            (ready params)
            (map (λ k. Thread.passed (first_proof k)) is)
    unfolding advance hash_nonce
    checking-Picks is hits =
        let looked = All-map (λ i hit. refl) is hits in
        let s = ready params in
        let first =
          map-Picks s (λ k. Thread.checking_flight (first_nonce k))
            (λ k. Thread.checking_loaded (first_nonce k)) is looked in
        let second =
          map-Picks s _ (λ k. Thread.reading_params (first_nonce k)) is
            (All-map (λ i hit. refl) is hits) in
        let third =
          map-Picks s _ (λ k. Thread.found (first_proof k)) is
            (All-map (λ i hit. hashed i hit.1) is hits) in
        let fourth =
          map-Picks s _ (λ k. Thread.passed (first_proof k)) is
            (All-map (λ i hit. tested i hit.1) is hits) in
        append_runs (append_runs (append_runs first second) third) fourth
      where
        hashed :
            (i : ℕ)
            → (first_proof i).success ≡ true
            → next sha256_hex miner_address speed true
                (ready params)
                (Thread.reading_params (first_nonce i))
              ≡ (ready params, Thread.found (first_proof i))
        hashed i hit = rw hit refl

        tested :
            (i : ℕ)
            → (first_proof i).success ≡ true
            → next sha256_hex miner_address speed true (ready params) (Thread.found (first_proof i))
              ≡ (ready params, Thread.passed (first_proof i))
        tested i hit = rw hit refl

    passed-Picks :
        (s : State) (proofs : List ℕ)
        → Picks sha256_hex miner_address speed
            (flight s)
            (map (λ k. Thread.passed (first_proof k)) proofs)
            (flight s)
            (map (λ k. Thread.submitting (first_proof k)) proofs)
    unfolding advance
    passed-Picks s ks = map-Picks (flight s) _ _ ks (no_change ks)
      where
        no_change :
            (ks : List ℕ)
            → All
                (λ k.
                  next sha256_hex miner_address speed true
                    (flight s)
                    (Thread.passed (first_proof k))
                  ≡ (flight s, Thread.submitting (first_proof k)))
                ks
        no_change [] = tt
        no_change (k ∷ ks) = (refl, no_change ks)

    checking_then_submitting-Picks :
        (i : ℕ) (is : List ℕ)
        → All IsHit (i ∷ is)
        → Picks sha256_hex miner_address speed
            (ready params)
            (map (λ k. Thread.checking_flight (first_nonce k)) (i ∷ is))
            (flight (ready params))
            (map (λ k. Thread.submitting (first_proof k)) (i ∷ is))
    unfolding advance
    checking_then_submitting-Picks i is hits =
        let flagged =
          head-Pick true (ready params) (Thread.passed (first_proof i))
            (map (λ k. Thread.passed (first_proof k)) is) (flight (ready params))
            (Thread.submitting (first_proof i)) refl in
        let one = Picks.more (checking-Picks (i ∷ is) hits) flagged in
        append_runs one
          (tail-Picks (Thread.submitting (first_proof i)) (passed-Picks (ready params) is))

    polled_once :
        (thread_count : ℕ)
        → Run sha256_hex miner_address speed
            (main sha256_hex miner_address speed thread_count)
            (record {
              state = ready params;
              threads = handlers sha256_hex miner_address speed 0 thread_count;
              poller = Poller.asking;
            })
    unfolding poll
    polled_once thread_count =
        Run.moved (Run.moved Run.started (Move.polled (some params) _)) (Move.polled none _)

    -- The flag `tx_in_flight` does not keep the threads apart: with a speed from 1 to 1000, and
    -- parameters whose difficulty the first nonce of each thread meets, the miner can come to a
    -- state in which all of its threads, of which there is at least one, submit a proof at once. The
    -- runtime is taken to run all of them in parallel.
    pub all_threads_submit :
        (thread_count : ℕ)
        → 1 ≤ speed
        → speed ≤ 1000
        → All IsHit (numbers 0 (suc thread_count))
        → Run sha256_hex miner_address speed
            (main sha256_hex miner_address speed (suc thread_count))
            (record {
              state = flight (ready params);
              threads = map (λ k. Thread.submitting (first_proof k)) (numbers 0 (suc thread_count));
              poller = Poller.asking;
            })
    all_threads_submit thread_count good within hits =
        let begun =
          subst
            (λ ts.
              Run sha256_hex miner_address speed
                (main sha256_hex miner_address speed (suc thread_count))
                (record { state = ready params; threads = ts; poller = Poller.asking }))
            (handlers-IsHit good within 0 (suc thread_count) hits)
            (polled_once (suc thread_count)) in
        Run-Picks Poller.asking begun
          (checking_then_submitting-Picks 0 (numbers 1 thread_count) hits)
