-- ===== src/Miner/Cli/Moves.antt =====
-- The moves of the program of packages/dpow-miner-cli/src/main.rs, in any order of its threads.
use joe_liquid_staking.Prelude.{ℕ, String, Bool, Option, List, ◌∷◌}
use joe_liquid_staking.Types.{MinerParamsResponse}
use joe_liquid_staking.Miner.Cli.{State, Thread, Poller, initial, handlers, advance, poll}

pub record Program : Type 0 where
  pub state : State
  pub threads : List Thread
  pub poller : Poller

-- `main`, with the threads spawned.
abbrev pub main : (List ℕ → String) → String → ℕ → ℕ → Program
main sha256_hex miner_address speed thread_count = record {
  state = initial;
  threads = handlers sha256_hex miner_address speed 0 thread_count;
  poller = Poller.asking;
}

module _ (sha256_hex : List ℕ → String) (miner_address : String) (speed : ℕ) where
  abbrev pub next : Bool → State → Thread → State × Thread
  next = advance sha256_hex miner_address speed

  -- One of the mining threads moves.
  pub data Pick : State → List Thread → State → List Thread → Type 0 where
    here :
        (sent : Bool) (s : State) (t : Thread) (ts : List Thread)
        → Pick s (t ∷ ts) (next sent s t).0 ((next sent s t).1 ∷ ts)
    there :
        {s u : State} {ts us : List Thread}
        → (t : Thread) → Pick s ts u us
        → Pick s (t ∷ ts) u (t ∷ us)

  pub data Move : Program → Program → Type 0 where
    mined :
        (s : State) (ts : List Thread) (p : Poller) (u : State) (us : List Thread)
        → Pick s ts u us
        → Move
            (record { state = s; threads = ts; poller = p })
            (record { state = u; threads = us; poller = p })
    polled :
        (answer : Option MinerParamsResponse) (m : Program)
        → Move m (record m {
          state = (poll answer m.state m.poller).0;
          poller = (poll answer m.state m.poller).1;
        })

  pub data Run (start : Program) : Program → Type 0 where
    started : Run start start
    moved : {m n : Program} → Run start m → Move m n → Run start n
