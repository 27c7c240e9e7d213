-- ===== src/Miner/Cli/Joed/Delivered.antt =====
-- The calls of `joed` in packages/dpow-miner-cli/src/main.rs, with the hub of contracts/hub/src at the
-- other end.
use joe_liquid_staking.Prelude.{
  ◌≡◌, String, none, some, Option, List, [], ◌∷◌, ok, str_eq, if◌then◌else◌,
}
use joe_liquid_staking.Types.{Cosmwasm, Env, MessageInfo, ExecuteMsg, QueryMsg, MinerParamsResponse}
use joe_liquid_staking.State.{State}
use joe_liquid_staking.Queries.{query, miner_params_response, miner_params}
use joe_liquid_staking.Miner.Cli.Joed.{System, Output}

-- A call that the chain makes of the hub.
pub record Call : Type 0 where
  pub env : Env
  pub info : MessageInfo
  pub msg : ExecuteMsg
  pub storage : State

-- The value of the first option with a name, on a command line of options that have a value each but
-- for `-y`.
unfoldable pub option : String → List String → Option String
option name [] = none
option name (x ∷ []) = none
option name (x ∷ value ∷ rest) =
    if str_eq x "-y"
    then option name (value ∷ rest)
    else if str_eq x name
    then some value
    else option name rest

-- A command line of `joed` that asks a node of a chain for a contract's answer to a query in JSON.
abbrev pub IsQuery : String → String → String → String → List String → Type 0
IsQuery chain_id node contract text args =
    (options : List String) × (args
      ≡ "q" ∷ "wasm" ∷ "contract-state" ∷ "smart" ∷ contract ∷ text ∷ options)
    × (option "--node" options ≡ some node)
    × (option "--chain-id" options ≡ some chain_id)
    × (option "--output" options ≡ some "json")

-- A command line of `joed` that has a node of a chain execute a message of an account on a contract,
-- and waits for the block.
abbrev pub IsExecution : String → String → String → String → String → List String → Type 0
IsExecution chain_id node contract text from args =
    (options : List String) × (args ≡ "tx" ∷ "wasm" ∷ "execute" ∷ contract ∷ text ∷ options)
    × (option "--from" options ≡ some from)
    × (option "--node" options ≡ some node)
    × (option "--chain-id" options ≡ some chain_id)
    × (option "--broadcast-mode" options ≡ some "block")

module _ {World Json : Type 0} (sys : System World Json) (cw : Cosmwasm) where
  -- The hub as it stands in a world: its storage, the block in which the next transaction runs, and
  -- the last call that was made of it.
  pub record Hub : Type 0 where
    pub storage : World → State
    pub env : World → Env
    pub last_call : World → Option Call

  -- `joed` with a node that runs the chain of the hub. A query of the hub prints the hub's answer as
  -- JSON, under `data`, and changes nothing; an execution calls the hub once, with its message and
  -- from its account. Nothing is said of other command lines.
  pub record IsJoed (hub : Hub) (chain_id node contract : String) : Type 0 where
    pub answers :
        (w : World) (text : String) (args : List String) (params : MinerParamsResponse)
        → IsQuery chain_id node contract text args
        → sys.query_to_string QueryMsg.miner_params ≡ ok text
        → query cw (hub.env w) QueryMsg.miner_params (hub.storage w)
          ≡ ok (miner_params_response params)
        → (answer : Output) × (json : Json) × (data_field : Json) × (sys.output "joed" args w
            ≡ (w, ok answer))
          × (sys.from_str answer.stdout ≡ some json)
          × (sys.get json "data" ≡ some data_field)
          × (sys.miner_params_from_value data_field ≡ some params)
    pub delivers :
        (w : World) (msg : ExecuteMsg) (text miner : String) (args : List String)
        → IsExecution chain_id node contract text miner args
        → sys.execute_to_string msg ≡ ok text
        → (w' : World) × (answer : Output) × (sys.output "joed" args w ≡ (w', ok answer))
          × (hub.last_call w'
              ≡ some (record {
                env = hub.env w;
                info = record { sender = miner; funds = [] };
                msg = msg;
                storage = hub.storage w;
              }))

  -- The variables that the program reads are set.
  pub record IsConfigured (contract validator miner rpc_url : String) : Type 0 where
    pub contract_is : sys.var "CONTRACT_ADDRESS" ≡ some contract
    pub validator_is : sys.var "VALIDATOR_ADDRESS" ≡ some validator
    pub miner_is : sys.var "MINER_ADDRESS" ≡ some miner
    pub rpc_url_is : sys.var "RPC_URL" ≡ some rpc_url
