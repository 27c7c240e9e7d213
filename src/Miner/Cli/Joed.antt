-- ===== src/Miner/Cli/Joed.antt =====
-- The functions of packages/dpow-miner-cli/src/main.rs that run `joed` and read the environment. The
-- operating system and serde_json are the record `System`, a parameter; sleeping and printing are
-- left out.
pub mod Delivered
use Prim.Native.Char.{code}
use joe_liquid_staking.Prelude.{
  ℕ, ◌+◌, ◌-◌, ◌*◌, String, Bool, Option, none, some, List, [], ◌∷◌, Result, ok, err, StdError,
  generic_err, panic, ok_or, if◌then◌else◌, ltb, leb, ◌==◌, ◌&&◌, ◌||◌, u64_mod,
}
use mathlib.Core.Option
use joe_liquid_staking.Types.{ExecuteMsg, QueryMsg, MinerParamsResponse}
use joe_liquid_staking.Miner.{MinedProof}

-- What the program does to the world, with its result; an error keeps what was done before it.
abbrev pub Io : Type 0 → Type 0 → Type 0
Io World Value = World → World × Result Value

module _ {World : Type 0} where
  abbrev pub done : {Value : Type 0} → Result Value → Io World Value
  done result w = (w, result)

  infixl 5 ◌>>=◌
  abbrev pub ◌>>=◌ :
      {Value Next : Type 0} → Io World Value → (Value → Io World Next) → Io World Next
  ◌>>=◌ first rest w =
      let (w', result) = first w in elim result [ err e ↦ (w', err e) | ok value ↦ rest value w' ]

-- `std::process::Output`, its bytes as `from_utf8_lossy` reads them.
pub record Output : Type 0 where
  pub success : Bool
  pub stdout : String
  pub stderr : String

pub record System (World Json : Type 0) : Type 0 where
  -- `std::env::var`
  pub var : String → Option String
  -- `Command::new(program).args(args).output()`
  pub output : String → List String → Io World Output
  -- a program that is spawned, gets the text on its input, and is waited for
  pub pipe : String → String → Io World Output
  -- serde_json
  pub query_to_string : QueryMsg → Result String
  pub execute_to_string : ExecuteMsg → Result String
  pub from_str : String → Option Json
  pub get : Json → String → Option Json
  pub miner_params_from_value : Json → Option MinerParamsResponse

-- `str::parse::<u64>`: an optional plus sign and decimal digits.
unfoldable pub digits : ℕ → String → Option ℕ
digits n String.[] = some n
digits n (String.◌∷◌ c rest) =
    let value = digits (10 * n + (code c - 48)) rest in
    if leb 48 (code c) && leb (code c) 57 then value else none

unfoldable pub some_digits : String → Option ℕ
unfolding digits
some_digits String.[] = none
some_digits (String.◌∷◌ c rest) = digits 0 (String.◌∷◌ c rest)

abbrev pub without_plus : String → String
without_plus String.[] = String.[]
without_plus (String.◌∷◌ c rest) = if code c == 43 then rest else String.◌∷◌ c rest

unfoldable pub parse_u64 : String → Option ℕ
unfolding some_digits
parse_u64 text = elim (some_digits (without_plus text)) [
  | none ↦ none
  | some n ↦ if ltb n u64_mod then some n else none
]

-- The arguments of `joed` for a query and for a transaction.
abbrev pub query_args : String → String → String → List String
query_args contract query rpc_url =
    "q" ∷ "wasm" ∷ "contract-state" ∷ "smart" ∷ contract ∷ query ∷ "--node" ∷ rpc_url ∷ "--chain-id"
    ∷ "joe-1" ∷ "--output" ∷ "json" ∷ []

abbrev pub tx_args : String → String → String → String → String → List String
tx_args contract msg miner rpc_url format =
    "tx" ∷ "wasm" ∷ "execute" ∷ contract ∷ msg ∷ "--from" ∷ miner ∷ "--node" ∷ rpc_url
    ∷ "--chain-id" ∷ "joe-1" ∷ "--gas" ∷ "auto" ∷ "--gas-adjustment" ∷ "1.5" ∷ "--gas-prices"
    ∷ "0.025ujoe" ∷ "--fees" ∷ "0.025ujoe" ∷ "--broadcast-mode" ∷ "block" ∷ "-y" ∷ "--output"
    ∷ format ∷ []

-- `.expect(..)` and `.unwrap()`
abbrev pub expect : {Value : Type 0} → Result Value → Result Value
expect (err e) = err panic
expect (ok value) = ok value

abbrev pub expecting : {World Value : Type 0} → Io World Value → Io World Value
expecting action w = let (w', result) = action w in (w', expect result)

module _ {World Json : Type 0} (sys : System World Json) where
  abbrev pub env_var : String → Result String
  env_var name = ok_or (sys.var name) panic

  unfoldable pub get_miner_address : Result String
  get_miner_address = env_var "MINER_ADDRESS"

  unfoldable pub get_validator_address : Result String
  get_validator_address = env_var "VALIDATOR_ADDRESS"

  unfoldable pub get_contract_address : Result String
  get_contract_address = env_var "CONTRACT_ADDRESS"

  unfoldable pub get_rpc_url : Result String
  get_rpc_url = env_var "RPC_URL"

  abbrev number : String → Result ℕ
  number name = elim (sys.var name) [ none ↦ err panic | some text ↦ ok_or (parse_u64 text) panic ]

  unfoldable pub get_speed_as_int : Result ℕ
  get_speed_as_int = number "SPEED"

  unfoldable pub get_thread_count_as_int : Result ℕ
  get_thread_count_as_int = number "THREAD_COUNT"

  unfoldable pub poll_miner_params : Io World MinerParamsResponse
  unfolding get_contract_address get_rpc_url
  poll_miner_params = do
    contract ← done get_contract_address
    query ← done (sys.query_to_string QueryMsg.miner_params)
    rpc_url ← done get_rpc_url
    answer ← expecting (sys.output "joed" (query_args contract query rpc_url))
    parsed_json ←
        done (
          ok_or (sys.from_str answer.stdout) (generic_err "parsing json from contract-state query"))
    data_field ← done (
        ok_or (sys.get parsed_json "data")
          (generic_err "getting data field from miner params json"))
    done (ok_or (sys.miner_params_from_value data_field) (generic_err "parsing miner params json"))

  unfoldable pub submit_proof : MinedProof → Io World (Unit {0})
  unfolding get_contract_address get_validator_address get_miner_address get_rpc_url
  submit_proof proof = do
    contract ← done get_contract_address
    validator ← done get_validator_address
    msg ← done (expect (sys.execute_to_string (ExecuteMsg.submit_proof proof.nonce validator)))
    miner ← done get_miner_address
    rpc_url ← done get_rpc_url
    answer ← expecting (sys.output "joed" (tx_args contract msg miner rpc_url "text"))
    done (ok tt)

  -- `update_entropy`, with the 30 characters that it draws.
  unfoldable pub update_entropy : String → Io World String
  unfolding get_contract_address get_miner_address get_rpc_url
  update_entropy entropy = do
    contract ← done get_contract_address
    msg ← done (sys.execute_to_string (ExecuteMsg.update_entropy entropy))
    miner ← done get_miner_address
    rpc_url ← done get_rpc_url
    answer ← sys.output "joed" (tx_args contract msg miner rpc_url "json")
    shown ← if answer.success then sys.pipe "jq" answer.stdout else done (ok answer)
    done (ok entropy)
