-- ===== src/Examples/Contract.antt =====
-- The invariant of contracts/hub/src/contract.rs at concrete calls.
use joe_liquid_staking.Execute.Bond.{bond, least_delegation}
use joe_liquid_staking.Types.{
  fee_type_from_str, InstantiateMsg, ExecuteMsg, ReceiveMsg, Response, decimal_fractional,
}
use joe_liquid_staking.Helpers.{
  get_denom_balance, parse_received_fund, query_cw20_total_supply, query_delegations,
}
use joe_liquid_staking.Math.{compute_mint_amount, sum_amounts}
use joe_liquid_staking.Contract.{receive_hook, execute}
use joe_liquid_staking.Execute.Unbond.{queue_unbond}
use joe_liquid_staking.Prelude.{
  fit, ◌/◌, refl, some, none, List, [], ◌∷◌, arith, ℕ, Bool, Result, ok, String, ltb,
}
use joe_liquid_staking.State.{find_request, State, empty_state}
use joe_liquid_staking.Execute.Instantiate.{ReplyEvent, instantiate, register_steak_token}
use joe_liquid_staking.Contract.Invariant.{IsSound}
use Prim.Native.Char.{Char, code}
use joe_liquid_staking.Execute.Reply.{reply}
use joe_liquid_staking.Contract.Kept.{execute-IsSound}
use joe_liquid_staking.Contract.Refines.{QueueStep, execute_refines}
use joe_liquid_staking.Ledger.View.{view}
use joe_liquid_staking.Contract.Reach.{Step}
use joe_liquid_staking.Examples.{
  chain, chain-IsCosmwasm, env, info, storage, storage-Balanced, outcome,
}

pub storage-IsSound : IsSound storage
storage-IsSound = record {
  books = storage-Balanced;
  order = (
    ((refl, tt), (tt, tt)),
    ((refl, (refl, (refl, tt))), ((refl, (refl, tt)), ((refl, tt), (tt, tt)))),
  );
  fees = (omega arith, omega arith);
  difficulty = omega arith;
  powers = refl;
  powers_order = ((refl, tt), (tt, tt));
}

-- A holder sends shares to the hub through the token.
abbrev pub unbonding : ExecuteMsg
unbonding =
    ExecuteMsg.receive
      (record { sender = "alice"; amount = 7; msg = some (ReceiveMsg.queue_unbond none) })

abbrev unbonded : State × Response
unbonded = outcome (execute chain env (info "steak") unbonding storage)

execute-IsSound_example : IsSound unbonded.0
unfolding execute receive_hook queue_unbond fit find_request
execute-IsSound_example =
    execute-IsSound chain-IsCosmwasm env (info "steak") storage unbonded storage-IsSound unbonding
      refl

execute_refines_example :
    QueueStep (some "owner") (some "steak") "steak" (view storage) (view unbonded.0)
unfolding execute receive_hook queue_unbond fit find_request
execute_refines_example =
    execute_refines chain-IsCosmwasm env (info "steak") storage unbonded unbonding refl

abbrev pub setup : InstantiateMsg
setup = record {
  cw20_code_id = 4;
  owner = "owner";
  name = "Steak";
  symbol = "STEAK";
  decimals = 6;
  epoch_period = 100;
  unbond_period = 700;
  validators = "v1" ∷ "v2" ∷ [];
  denom = "ujoe";
  fee_account_type = "Wallet";
  fee_account = "treasury";
  fee_amount = decimal_fractional / 10;
  max_fee_amount = decimal_fractional / 5;
  label = none;
}

abbrev pub created : State × Response
created = outcome (instantiate chain env setup empty_state)

abbrev pub events : List ReplyEvent
events = record { ty = "instantiate"; attributes = ("_contract_address", "steak") ∷ [] } ∷ []

-- Letters are what is not a digit, and every amount is read as 12.
abbrev pub letter : Char → Bool
letter c = ltb 57 (code c)

abbrev pub twelve : String → Result ℕ
twelve s = ok 12

abbrev pub registered : State × Response
registered = outcome (reply letter twelve chain env 1 events created.0)

abbrev pub bonded : State × Response
bonded = outcome (execute chain env (info "alice") (ExecuteMsg.bond none) registered.0)

pub registering : Step chain created.0 registered.0
unfolding register_steak_token execute bond instantiate fee_type_from_str fit parse_received_fund
    query_delegations least_delegation query_cw20_total_supply compute_mint_amount sum_amounts
    get_denom_balance reply
registering = Step.replied letter twelve env 1 events created.0 registered refl

pub bonding : Step chain registered.0 bonded.0
unfolding register_steak_token execute bond instantiate fee_type_from_str fit parse_received_fund
    query_delegations least_delegation query_cw20_total_supply compute_mint_amount sum_amounts
    get_denom_balance reply
bonding = Step.executed env (info "alice") (ExecuteMsg.bond none) registered.0 bonded refl
