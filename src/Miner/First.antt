-- ===== src/Miner/First.antt =====
-- `mine` of packages/dpow-browser-miner/src/lib.rs against the test that `submit_proof` of
-- contracts/hub/src/execute.rs makes.
use joe_liquid_staking.Prelude.{
  ℕ, zero, suc, ◌+◌, ◌-◌, ◌≤◌, ◌<◌, ◌≡◌, refl, ap, ◌∙◌, String, Bool, Bool-cases, true, false, ◌||◌,
  inl, inr, some, ok, leb, ltb, arith, fit_eq, u64_mod, sub_word_eq, panic,
}
use text.Mathlib.Text.{starts_with}
use joe_liquid_staking.Types.{Cosmwasm}
use joe_liquid_staking.Execute.Mining.{compute_miner_proof, create_difficulty_prefix}
use joe_liquid_staking.Miner.{
  MinedProof, difficulty_string, entropy_hash, try_nonce, mine_loop, mine, mine_turn, next_turn,
}

difficulty_string-prefix :
    (difficulty : ℕ) → difficulty_string difficulty ≡ create_difficulty_prefix difficulty
unfolding difficulty_string create_difficulty_prefix
difficulty_string-prefix zero = refl
difficulty_string-prefix (suc difficulty) =
    ap (String.◌∷◌ "0") (difficulty_string-prefix difficulty)

-- The test of the hub on a nonce.
abbrev pub meets : Cosmwasm → String → String → ℕ → ℕ → Bool
meets cw entropy address difficulty nonce =
    starts_with (compute_miner_proof cw entropy address nonce) (create_difficulty_prefix difficulty)

-- The proof that says of a nonce what the hub says.
abbrev pub proof_of : Cosmwasm → String → String → ℕ → ℕ → MinedProof
proof_of cw entropy address difficulty nonce = record {
  nonce = nonce;
  hash = compute_miner_proof cw entropy address nonce;
  success = meets cw entropy address difficulty nonce;
}

-- The first nonce from `from` on that meets the difficulty, or the last of the range.
pub record IsFirst (test : ℕ → Bool) (from last nonce : ℕ) : Type 0 where
  pub least : from ≤ nonce
  pub most : nonce ≤ last
  pub before : (k : ℕ) → from ≤ k → k < nonce → test k ≡ false
  pub failed : test nonce ≡ false → nonce ≡ last

module _ (cw : Cosmwasm) (entropy address : String) (difficulty : ℕ) where
  pub try_nonce-proof_of :
      (nonce : ℕ)
      → try_nonce cw.sha256_hex entropy address difficulty nonce
        ≡ proof_of cw entropy address difficulty nonce
  unfolding try_nonce entropy_hash compute_miner_proof
  try_nonce-proof_of nonce = rw (difficulty_string-prefix difficulty) refl

  abbrev test : ℕ → Bool
  test nonce = meets cw entropy address difficulty nonce

  later :
      (from last n : ℕ)
      → test from ≡ false
      → IsFirst test (suc from) last n
      → IsFirst test from last n
  later from last n fails first = record {
    least = omega (arith, first.least);
    most = first.most;
    before = λ k low high. elim (Bool-cases (ltb from k)) [
      | inl above ↦ first.before k (ground arith) high
      | inr equal ↦ let same : k ≡ from = ground arith in ap test same ∙ fails
    ];
    failed = first.failed;
  }

  module _ (start max_tries fuel nonce : ℕ) (low : start ≤ nonce) where
    turn_stops :
        (test nonce || leb max_tries (nonce - start)) ≡ true
        → mine_loop cw.sha256_hex entropy address difficulty start max_tries (suc fuel) nonce
          ≡ some (ok (proof_of cw entropy address difficulty nonce))
    unfolding mine_loop mine_turn
    turn_stops done =
        rw (try_nonce-proof_of nonce) (rw (sub_word_eq nonce start low) (rw done refl))

    turn_goes :
        (test nonce || leb max_tries (nonce - start)) ≡ false
        → nonce + 1 < u64_mod
        → mine_loop cw.sha256_hex entropy address difficulty start max_tries (suc fuel) nonce
          ≡ mine_loop cw.sha256_hex entropy address difficulty start max_tries fuel (suc nonce)
    unfolding mine_loop mine_turn next_turn
    turn_goes going room =
        let next : nonce + 1 ≡ suc nonce = omega arith in
        rw (try_nonce-proof_of nonce) (
          rw (sub_word_eq nonce start low)
            (rw (going, fit_eq u64_mod panic (nonce + 1) room) (rw next refl)))

  found :
      (nonce last : ℕ)
      → nonce ≤ last
      → (test nonce ≡ false → nonce ≡ last)
      → IsFirst test nonce last nonce
  found nonce last within failed = record {
    least = omega arith;
    most = within;
    before = λ k low high. absurd (omega arith);
    failed = failed;
  }

  mine_loop-IsFirst :
      (start max_tries fuel nonce : ℕ)
      → start + max_tries < u64_mod
      → start ≤ nonce
      → nonce + fuel ≡ start + max_tries
      → (n : ℕ) × (mine_loop cw.sha256_hex entropy address difficulty start max_tries
            (suc fuel)
            nonce
          ≡ some (ok (proof_of cw entropy address difficulty n)))
        × IsFirst test nonce (start + max_tries) n
  mine_loop-IsFirst start max_tries zero nonce small low sum =
      let whole : leb max_tries (nonce - start) ≡ true = ground arith in
      let done : (test nonce || leb max_tries (nonce - start)) ≡ true = ground (arith, whole) in
      (
        nonce,
        turn_stops start max_tries zero nonce low done,
        found nonce (start + max_tries) (omega arith) (λ _. omega arith),
      )
  mine_loop-IsFirst start max_tries (suc fuel) nonce small low sum =
      elim (Bool-cases (test nonce)) [
        | inl success ↦ (
          nonce,
          turn_stops start max_tries (suc fuel) nonce low (rw success refl),
          found nonce (start + max_tries) (omega arith) (λ fails. absurd (cc (success, fails))),
        )
        | inr fails ↦
            let short : leb max_tries (nonce - start) ≡ false = ground arith in
            let (n, result, first) =
              mine_loop-IsFirst start max_tries fuel (suc nonce) small (omega arith)
                (omega arith) in
            (
              n,
              turn_goes start max_tries (suc fuel) nonce low (rw (fails, short) refl) (omega arith)
                  ∙ result,
              later nonce (start + max_tries) n fails first,
            )
      ]

  -- The search ends: where the last nonce of its range is a 64-bit number, `mine` returns a proof
  -- for the first nonce from `start_nonce` on that passes the test of `submit_proof` for the entropy, the address and the
  -- difficulty, or for the last nonce of the range where none before it passes; the proof holds the hash that `submit_proof` computes, and
  -- its `success` is what the test says.
  pub mine-IsFirst :
      (start_nonce max_tries : ℕ)
      → start_nonce + max_tries < u64_mod
      → (n : ℕ) × (mine cw.sha256_hex entropy address difficulty start_nonce max_tries
          ≡ some (ok (proof_of cw entropy address difficulty n)))
        × IsFirst test start_nonce (start_nonce + max_tries) n
  unfolding mine
  mine-IsFirst start_nonce max_tries small =
      mine_loop-IsFirst start_nonce max_tries max_tries start_nonce small (omega arith) refl
