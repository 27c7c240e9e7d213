-- ===== src/Examples/Joed.antt =====
-- The program of packages/dpow-miner-cli/src/main.rs with a concrete operating system, whose `joed`
-- answers from a hub of contracts/hub/src and whose JSON is a number in unary and a text.
use Prim.Native.Char.{code}
use joe_liquid_staking.Prelude.{
  ℕ, zero, suc, ◌&&◌, Bool, false, String, true, Option, some, none, List, [], ◌∷◌, Result, ok, err,
  panic, if◌then◌else◌, ◌==◌, str_eq,
}
use joe_liquid_staking.Types.{ExecuteMsg, QueryMsg, MinerParamsResponse}
use joe_liquid_staking.State.{State}
use joe_liquid_staking.Queries.{QueryResponse, query, miner_params_response}
use joe_liquid_staking.Miner.Cli.Joed.{System, Output, Io, submit_proof}
use joe_liquid_staking.Miner.Cli.Joed.Delivered.{Call, Hub, option}
use joe_liquid_staking.Miner.{MinedProof}
use joe_liquid_staking.Miner.First.{proof_of}
use joe_liquid_staking.Examples.{chain, env, storage}

abbrev World : Type 0
World = State × Option Call

abbrev encode : ℕ → String → String
encode zero text = String.◌∷◌ "." text
encode (suc n) text = String.◌∷◌ "1" (encode n text)

abbrev onto : Option (ℕ × String) → Option (ℕ × String)
onto none = none
onto (some (n, text)) = some (suc n, text)

abbrev decode : String → Option (ℕ × String)
decode String.[] = none
decode (String.◌∷◌ c text) =
    let rest = decode text in if code c == 46 then some (0, text) else onto rest

abbrev execute_to_string : ExecuteMsg → Result String
execute_to_string (ExecuteMsg.submit_proof nonce validator) = ok (encode nonce validator)
execute_to_string (ExecuteMsg.receive m) = err panic
execute_to_string (ExecuteMsg.bond r) = err panic
execute_to_string (ExecuteMsg.withdraw_unbonded r) = err panic
execute_to_string (ExecuteMsg.withdraw_unbonded_admin a) = err panic
execute_to_string (ExecuteMsg.add_validator a) = err panic
execute_to_string (ExecuteMsg.remove_validator a) = err panic
execute_to_string (ExecuteMsg.remove_validator_ex a) = err panic
execute_to_string (ExecuteMsg.pause_validator a) = err panic
execute_to_string (ExecuteMsg.unpause_validator a) = err panic
execute_to_string (ExecuteMsg.transfer_ownership a) = err panic
execute_to_string ExecuteMsg.accept_ownership = err panic
execute_to_string ExecuteMsg.harvest = err panic
execute_to_string (ExecuteMsg.rebalance n) = err panic
execute_to_string ExecuteMsg.reconcile = err panic
execute_to_string ExecuteMsg.submit_batch = err panic
execute_to_string (ExecuteMsg.set_unbond_period n) = err panic
execute_to_string (ExecuteMsg.transfer_fee_account t a) = err panic
execute_to_string (ExecuteMsg.update_fee n) = err panic
execute_to_string (ExecuteMsg.update_entropy e) = err panic
execute_to_string (ExecuteMsg.callback c) = err panic

abbrev query_to_string : QueryMsg → Result String
query_to_string msg = ok "query"

-- What `joed` prints of the hub's answer.
abbrev printed : Result QueryResponse → String
printed (ok (miner_params_response params)) = encode params.difficulty params.entropy
printed other = ""

abbrev answer_with : String → Output
answer_with text = record { success = true; stdout = text; stderr = "" }

abbrev call_of : State → ExecuteMsg → String → Call
call_of s msg miner = record {
  env = env;
  info = record { sender = miner; funds = [] };
  msg = msg;
  storage = s;
}

abbrev transact : Option (ℕ × String) → Option String → Io World Output
transact (some (nonce, validator)) (some miner) w =
    ((w.0, some (call_of w.0 (ExecuteMsg.submit_proof nonce validator) miner)), ok (answer_with ""))
transact text miner w = (w, err panic)

abbrev on_chain : List String → Bool
on_chain options = elim (option "--chain-id" options) [ none ↦ false | some id ↦ str_eq id "joe-1" ]

abbrev output : String → List String → Io World Output
output program (a ∷ b ∷ c ∷ d ∷ e ∷ f ∷ options) w =
    if str_eq a "q" && str_eq c "contract-state" && str_eq d "smart" && on_chain options
    then (w, ok (answer_with (printed (query chain env QueryMsg.miner_params w.0))))
    else if str_eq a "tx" && str_eq c "execute" && str_eq d "hub" && on_chain (f ∷ options)
    then transact (decode e) (option "--from" (f ∷ options)) w
    else (w, err panic)
output program args w = (w, err panic)

abbrev variable : String → Option String
variable name =
    if str_eq name "CONTRACT_ADDRESS"
    then some "hub"
    else if str_eq name "VALIDATOR_ADDRESS"
    then some "v1"
    else if str_eq name "MINER_ADDRESS"
    then some "alice"
    else if str_eq name "RPC_URL"
    then some "http://localhost"
    else none

abbrev params_of : ℕ × String → MinerParamsResponse
params_of (difficulty, entropy) = record { entropy = entropy; difficulty = difficulty }

abbrev system : System World (ℕ × String)
system = record {
  var = variable;
  output = output;
  pipe = λ program text w. (w, ok (answer_with text));
  query_to_string = query_to_string;
  execute_to_string = execute_to_string;
  from_str = decode;
  get = λ json field. some json;
  miner_params_from_value = λ json. some (params_of json);
}

abbrev hub : Hub system chain
hub = record { storage = λ w. w.0; env = λ w. env; last_call = λ w. w.1 }

abbrev mined : MinedProof
mined = proof_of chain "entropy" "alice" 2 5
