-- ===== src/Miner/Cli/Proofs.antt =====
-- What holds in every state of the program of packages/dpow-miner-cli/src/main.rs.
use joe_liquid_staking.Prelude.{
  ℕ, zero, suc, ◌+◌, ◌*◌, sym, ◌∙◌, ◌≡◌, ◌⊎◌, inl, inr, refl, String, Bool, true, false, Option,
  none, some, List, [], ◌∷◌, All, ◌||◌, if◌then◌else◌, ltb, ◌==◌, u64_mod,
}
use joe_liquid_staking.Types.{MinerParamsResponse}
use joe_liquid_staking.Miner.{MinedProof, try_nonce}
use joe_liquid_staking.Miner.Cli.{
  State, Thread, Poller, handlers, create_tokio_handler, start_mine, hash_nonce, advance, poll,
}
use joe_liquid_staking.Miner.Cli.Moves.{Program, main, next, Pick, Move, Run}

-- The thread submits a proof, or panicked while it did.
abbrev pub IsBusy : Thread → Type 0
IsBusy (Thread.submitting proof) = Unit
IsBusy Thread.failed = Unit
IsBusy _ = ⊥

abbrev pub Some : (Thread → Type 0) → List Thread → Type 0
Some P [] = ⊥
Some P (t ∷ ts) = P t ⊎ Some P ts

either : (P : Thread → Type 0) (test : Bool) {t u : Thread} → P t → P u → P (if test then t else u)
either P true h k = h
either P false h k = k

either_of :
    (P : Thread → Type 0) (test : Bool) {t u : Thread}
    → (test ≡ true → P t)
    → P u
    → P (if test then t else u)
either_of P true h k = h refl
either_of P false h k = k

-- A thread that is not busy leaves it to the others to be.
others : {P Q : Type 0} → ⊥ ⊎ P → Q ⊎ P
others (inl none_busy) = absurd none_busy
others (inr other) = inr other

keep : {P Q R : Type 0} → (P → Q) → R ⊎ P → R ⊎ Q
keep f (inl first) = inl first
keep f (inr other) = inr (f other)

module _ (sha256_hex : List ℕ → String) (miner_address : String) (speed : ℕ) where
  -- The proof is the one of some parameters for its nonce, and meets their difficulty.
  abbrev pub IsMined : MinedProof → Type 0
  IsMined proof =
      (params : MinerParamsResponse) × (try_nonce sha256_hex params.entropy miner_address
          params.difficulty proof.nonce
        ≡ proof)
      × (proof.success ≡ true)

  abbrev pub HoldsMined : Thread → Type 0
  HoldsMined (Thread.found proof) = IsMined proof
  HoldsMined (Thread.passed proof) = IsMined proof
  HoldsMined (Thread.submitting proof) = IsMined proof
  HoldsMined _ = Unit

  start_mine-HoldsMined : (n : ℕ) → HoldsMined (start_mine sha256_hex miner_address speed n)
  unfolding start_mine
  start_mine-HoldsMined n =
      either HoldsMined (ltb (n + 1) u64_mod)
        (either HoldsMined (ltb 1000 speed || speed == 0) tt tt) tt

  try_nonce-nonce :
      (params : MinerParamsResponse) (nonce : ℕ)
      → let proof = try_nonce sha256_hex params.entropy miner_address params.difficulty nonce in
        try_nonce sha256_hex params.entropy miner_address params.difficulty proof.nonce ≡ proof
  unfolding try_nonce
  try_nonce-nonce params nonce = refl

  next-HoldsMined :
      (sent : Bool) (s : State) (t : Thread)
      → HoldsMined t
      → HoldsMined (next sha256_hex miner_address speed sent s t).1
  unfolding advance hash_nonce
  next-HoldsMined sent s (Thread.checking_flight nonce) h = either HoldsMined s.tx_in_flight tt tt
  next-HoldsMined sent s (Thread.checking_loaded nonce) h =
      either HoldsMined s.miner_params_loaded tt tt
  next-HoldsMined sent s (Thread.reading_params nonce) h =
      let params = s.miner_params in
      let proof = try_nonce sha256_hex params.entropy miner_address params.difficulty nonce in
      either_of HoldsMined proof.success (λ e. (params, try_nonce-nonce params nonce, e)) tt
  next-HoldsMined sent s (Thread.found proof) h =
      let again = start_mine-HoldsMined proof.nonce in
      either HoldsMined proof.success (either HoldsMined s.tx_in_flight again h) again
  next-HoldsMined sent s (Thread.passed proof) h = h
  next-HoldsMined true s (Thread.submitting proof) h = start_mine-HoldsMined proof.nonce
  next-HoldsMined false s (Thread.submitting proof) h = tt
  next-HoldsMined sent s Thread.stopped h = tt
  next-HoldsMined sent s Thread.failed h = tt

  Pick-HoldsMined :
      {s u : State} {ts us : List Thread}
      → Pick sha256_hex miner_address speed s ts u us
      → All HoldsMined ts
      → All HoldsMined us
  Pick-HoldsMined (Pick.here sent s t ts) h = (next-HoldsMined sent s t h.0, h.1)
  Pick-HoldsMined (Pick.there t pick) h = (h.0, Pick-HoldsMined pick h.1)

  -- What a move of a thread does to the flag: it takes it back, leaves a busy thread, or changes
  -- neither the flag nor that some thread is busy.
  Flagged : State → List Thread → State → List Thread → Type 0
  Flagged s ts u us =
      (u.tx_in_flight ≡ false)
      ⊎ (Some IsBusy us ⊎ ((u.tx_in_flight ≡ s.tx_in_flight) × (Some IsBusy ts → Some IsBusy us)))

  next-Flagged :
      (sent : Bool) (s : State) (t : Thread) (ts : List Thread)
      → Flagged s
          (t ∷ ts)
          (next sha256_hex miner_address speed sent s t).0
          ((next sha256_hex miner_address speed sent s t).1 ∷ ts)
  unfolding Flagged advance
  next-Flagged sent s (Thread.checking_flight nonce) ts = inr (inr (refl, λ busy. others busy))
  next-Flagged sent s (Thread.checking_loaded nonce) ts = inr (inr (refl, λ busy. others busy))
  next-Flagged sent s (Thread.reading_params nonce) ts = inr (inr (refl, λ busy. others busy))
  next-Flagged sent s (Thread.found proof) ts = inr (inr (refl, λ busy. others busy))
  next-Flagged sent s (Thread.passed proof) ts = inr (inl (inl tt))
  next-Flagged true s (Thread.submitting proof) ts = inl refl
  next-Flagged false s (Thread.submitting proof) ts = inr (inl (inl tt))
  next-Flagged sent s Thread.stopped ts = inr (inr (refl, λ busy. busy))
  next-Flagged sent s Thread.failed ts = inr (inr (refl, λ busy. busy))

  Pick-Flagged :
      {s u : State} {ts us : List Thread}
      → Pick sha256_hex miner_address speed s ts u us
      → Flagged s ts u us
  unfolding Flagged
  Pick-Flagged (Pick.here sent s t ts) = next-Flagged sent s t ts
  Pick-Flagged (Pick.there t pick) = elim (Pick-Flagged pick) [
    | inl back ↦ inl back
    | inr (inl busy) ↦ inr (inl (inr busy))
    | inr (inr (same, kept)) ↦ inr (inr (same, keep kept))
  ]

  -- The flag is set only while a thread is busy, and every proof at hand was mined.
  record IsFair (m : Program) : Type 0 where
    flag : m.state.tx_in_flight ≡ true → Some IsBusy m.threads
    mined : All HoldsMined m.threads

  poll-flag :
      (answer : Option MinerParamsResponse) (s : State) (p : Poller)
      → (poll answer s p).0.tx_in_flight ≡ s.tx_in_flight
  unfolding poll
  poll-flag (some params) s Poller.asking = refl
  poll-flag none s Poller.asking = refl
  poll-flag answer s Poller.loaded = refl
  poll-flag answer s Poller.ended = refl

  Move-IsFair : {m n : Program} → Move sha256_hex miner_address speed m n → IsFair m → IsFair n
  unfolding Flagged
  Move-IsFair (Move.mined s ts p u us pick) fair = record {
    flag = λ set. elim (Pick-Flagged pick) [
      | inl back ↦ absurd (cc (set, back))
      | inr (inl busy) ↦ busy
      | inr (inr (same, kept)) ↦ kept (fair.flag (sym same ∙ set))
    ];
    mined = Pick-HoldsMined pick fair.mined;
  }
  Move-IsFair (Move.polled answer m) fair = record {
    flag = λ set. fair.flag (sym (poll-flag answer m.state m.poller) ∙ set);
    mined = fair.mined;
  }

  handlers-HoldsMined :
      (i thread_count : ℕ) → All HoldsMined (handlers sha256_hex miner_address speed i thread_count)
  unfolding handlers create_tokio_handler
  handlers-HoldsMined i zero = tt
  handlers-HoldsMined i (suc n) = (
    either HoldsMined (ltb (i * 100000000000) u64_mod) (start_mine-HoldsMined (i * 100000000000))
        tt,
    handlers-HoldsMined (suc i) n,
  )

  Run-IsFair : {m n : Program} → IsFair m → Run sha256_hex miner_address speed m n → IsFair n
  Run-IsFair fair Run.started = fair
  Run-IsFair fair (Run.moved run move) = Move-IsFair move (Run-IsFair fair run)

  -- However the threads of the miner interleave, and whatever the queries answer: while
  -- `tx_in_flight` is set some thread is submitting a proof or panicked while it did, so the flag
  -- is never left set otherwise; and every proof a thread has found, or submits, is
  -- the one of some parameters for its nonce and meets their difficulty.
  pub program_fair :
      (thread_count : ℕ) (m : Program)
      → Run sha256_hex miner_address speed (main sha256_hex miner_address speed thread_count) m
      → (m.state.tx_in_flight ≡ true → Some IsBusy m.threads) × All HoldsMined m.threads
  program_fair thread_count m run =
      let fair =
        Run-IsFair
          (record { flag = λ set. absurd (cc set); mined = handlers-HoldsMined 0 thread_count })
          run in
      (fair.flag, fair.mined)
