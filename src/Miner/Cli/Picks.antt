-- ===== src/Miner/Cli/Picks.antt =====
-- Runs of moves of the threads of packages/dpow-miner-cli/src/main.rs, one after another.
use joe_liquid_staking.Prelude.{ℕ, ◌≡◌, String, Bool, true, List, [], ◌∷◌, map, All}
use mathlib.Core.Path.{subst}
use joe_liquid_staking.Miner.Cli.{State, Thread, Poller}
use joe_liquid_staking.Miner.Cli.Moves.{Program, next, Pick, Move, Run}

module _ (sha256_hex : List ℕ → String) (miner_address : String) (speed : ℕ) where
  -- Moves of the threads, one after another.
  pub data Picks (s : State) (ts : List Thread) : State → List Thread → Type 0 where
    done : Picks s ts s ts
    more :
        {u v : State} {us vs : List Thread}
        → Picks s ts u us
        → Pick sha256_hex miner_address speed u us v vs
        → Picks s ts v vs

module _ {sha256_hex : List ℕ → String} {miner_address : String} {speed : ℕ} where
  pub tail-Picks :
      {s : State} {ts : List Thread} {u : State} {us : List Thread} (t : Thread)
      → Picks sha256_hex miner_address speed s ts u us
      → Picks sha256_hex miner_address speed s (t ∷ ts) u (t ∷ us)
  tail-Picks t Picks.done = Picks.done
  tail-Picks t (Picks.more picks pick) = Picks.more (tail-Picks t picks) (Pick.there t pick)

  pub append_runs :
      {s : State} {ts : List Thread} {u : State} {us : List Thread} {v : State} {vs : List Thread}
      → Picks sha256_hex miner_address speed s ts u us
      → Picks sha256_hex miner_address speed u us v vs
      → Picks sha256_hex miner_address speed s ts v vs
  append_runs first Picks.done = first
  append_runs first (Picks.more picks pick) = Picks.more (append_runs first picks) pick

  -- A thread whose next move is known.
  pub head-Pick :
      (sent : Bool) (s : State) (t : Thread) (ts : List Thread) (u : State) (v : Thread)
      → next sha256_hex miner_address speed sent s t ≡ (u, v)
      → Pick sha256_hex miner_address speed s (t ∷ ts) u (v ∷ ts)
  head-Pick sent s t ts u v e =
      subst (λ (o : State × Thread). Pick sha256_hex miner_address speed s (t ∷ ts) o.0 (o.1 ∷ ts))
        e (Pick.here sent s t ts)

  -- Every thread moves once, and none changes the state.
  pub map-Picks :
      {A : Type 0} (s : State) (f g : A → Thread) (xs : List A)
      → All (λ a. next sha256_hex miner_address speed true s (f a) ≡ (s, g a)) xs
      → Picks sha256_hex miner_address speed s (map f xs) s (map g xs)
  map-Picks s f g [] h = Picks.done
  map-Picks s f g (x ∷ xs) h =
      Picks.more (tail-Picks (f x) (map-Picks s f g xs h.1))
        (head-Pick true s (f x) (map g xs) s (g x) h.0)

  pub Run-Picks :
      {start : Program} {s : State} {ts : List Thread} {u : State} {us : List Thread} (p : Poller)
      → Run sha256_hex miner_address speed start (record { state = s; threads = ts; poller = p })
      → Picks sha256_hex miner_address speed s ts u us
      → Run sha256_hex miner_address speed start (record { state = u; threads = us; poller = p })
  Run-Picks p run Picks.done = run
  Run-Picks p run (Picks.more picks pick) =
      Run.moved (Run-Picks p run picks) (Move.mined _ _ p _ _ pick)
