-- ===== src/Miner/Hash.antt =====
-- packages/dpow-hash/src: the search of `search_pow` in the random nonces that are drawn. SHA-256
-- and the bech32 encoding are parameters.
use joe_liquid_staking.Prelude.{
  ℕ, ◌≡◌, refl, String, Bool-cases, inl, inr, Option, none, some, List, [], ◌∷◌, ◌++◌, find, ltb,
  if◌then◌else◌,
}
use mathlib.Core.Option.{map as map_option}
use text.Mathlib.Text.{starts_with}

pub data MinerError : Type 0 where
  insufficient_difficulty : ℕ → MinerError

pub data Search : Type 0 where
  failed : MinerError → Search
  mined : String → List ℕ → Search

-- The keyword that is searched: the one built from the difficulty is shadowed.
abbrev pub keyword : String
keyword = "dpow1j0e"

module _ (sha256 : List ℕ → List ℕ) (bech32_encode : String → List ℕ → String) where
  unfoldable pub hash_nonce : List ℕ → List ℕ → List ℕ
  hash_nonce header_hash nonce = sha256 (header_hash ++ nonce)

  unfoldable pub hash_header : List ℕ → List ℕ
  hash_header header = sha256 header

  unfoldable pub bech32_encode_hash : String → List ℕ → String
  bech32_encode_hash hrp hash = bech32_encode hrp hash

  -- The loop, over the nonces drawn; none while it goes on.
  unfoldable pub search_loop : List ℕ → List (List ℕ) → Option Search
  unfolding hash_nonce bech32_encode_hash
  search_loop header_hash [] = none
  search_loop header_hash (nonce ∷ nonces) =
      let bech32_hash = bech32_encode_hash "dpow" (hash_nonce header_hash nonce) in
      let rest = search_loop header_hash nonces in
      if starts_with bech32_hash keyword then some (Search.mined bech32_hash nonce) else rest

  unfoldable pub search_pow : List ℕ → ℕ → List (List ℕ) → Option Search
  unfolding search_loop
  search_pow header_hash difficulty nonces =
      if ltb difficulty 2
      then some (Search.failed (MinerError.insufficient_difficulty difficulty))
      else search_loop header_hash nonces

  abbrev pub encoded : List ℕ → List ℕ → String
  encoded header_hash nonce = bech32_encode "dpow" (sha256 (header_hash ++ nonce))

  search_loop-find :
      (header_hash : List ℕ) (nonces : List (List ℕ))
      → search_loop header_hash nonces
        ≡ map_option
            (λ nonce. Search.mined (encoded header_hash nonce) nonce)
            (find (λ nonce. starts_with (encoded header_hash nonce) "dpow1j0e") nonces)
  unfolding search_loop hash_nonce bech32_encode_hash
  search_loop-find header_hash [] = refl
  search_loop-find header_hash (nonce ∷ nonces) =
      elim (Bool-cases (starts_with (encoded header_hash nonce) "dpow1j0e")) [
        | inl e ↦ rw e refl
        | inr e ↦ rw e (search_loop-find header_hash nonces)
      ]

  -- `search_pow` refuses a difficulty below 2; for every other one it returns the first nonce drawn
  -- for which the bech32 text of the hash begins with "dpow1j0e", with that text, whatever the
  -- difficulty is, and goes on as long as none is drawn.
  pub search_pow-find :
      (header_hash : List ℕ) (difficulty : ℕ) (nonces : List (List ℕ))
      → search_pow header_hash difficulty nonces ≡ (
          if ltb difficulty 2
          then some (Search.failed (MinerError.insufficient_difficulty difficulty))
          else map_option
              (λ nonce. Search.mined (encoded header_hash nonce) nonce)
              (find (λ nonce. starts_with (encoded header_hash nonce) "dpow1j0e") nonces))
  unfolding search_pow
  search_pow-find header_hash difficulty nonces = rw (search_loop-find header_hash nonces) refl
