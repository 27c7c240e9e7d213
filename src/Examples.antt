-- ===== src/Examples.antt =====
-- A concrete chain and a concrete storage, on which the children evaluate the handlers of
-- contracts/hub/src and contracts/token/src.
mod Math
mod Ledger
mod Handlers
mod Contract
mod Reply
mod Token
mod Queries
mod Migrations
mod Miner
mod Joed
mod Burns
mod Life
use joe_liquid_staking.Prelude.{
  ℕ, ◌*◌, ◌/◌, ◌≡◌, refl, String, Option, none, some, true, false, List, [], ◌∷◌, Result, ok, err,
  panic, fit, u128_mod, if◌then◌else◌, ◌==◌, str_eq, eq_iff, arith,
}
use Prim.Native.String.{count}
use joe_liquid_staking.Types.{
  Cosmwasm, IsCosmwasm, decimal_fractional, Env, MessageInfo, Coin, FeeType, PendingBatch, Batch,
  UnbondRequest, Delegation, Response, InstantiateMsg,
}
use joe_liquid_staking.State.{State, empty_state, find_batch}
use joe_liquid_staking.Ledger.{IsBalanced, Balanced}

abbrev staked_with : String → Option ℕ
staked_with v = if str_eq v "v1" then some 100 else if str_eq v "v2" then some 61 else none

-- A digest of 64 zeros.
abbrev digest : String
digest = "0000000000000000000000000000000000000000000000000000000000000000"

abbrev pub chain : Cosmwasm
chain = record {
  addr_validate = λ a. ok a;
  query_delegation = λ delegator v. ok (staked_with v);
  query_all_delegations = λ delegator. ok ("v1" ∷ "v2" ∷ []);
  query_validator = λ v. ok (some v);
  token_supply = λ token. ok 120;
  query_balance = λ account denom. ok 50;
  multiply_ratio = λ a n d. if d == 0 then err panic else fit u128_mod panic (a * n / d);
  from_ratio = λ n d. if d == 0 then err panic else fit u128_mod panic (n * decimal_fractional / d);
  mul_decimal = λ d a. fit u128_mod panic (a * d / decimal_fractional);
  sha256_hex = λ bytes. digest;
}

pub chain-IsCosmwasm : IsCosmwasm chain
chain-IsCosmwasm = record {
  multiply_ratio_lem = λ a n d. refl;
  from_ratio_lem = λ n d. refl;
  mul_decimal_lem = λ d a. refl;
  count-sha256_hex = λ bytes. refl;
}

abbrev pub env : Env
env = record { time = 2000; height = 30; contract = "hub" }

abbrev pub info : String → MessageInfo
info sender = record { sender = sender; funds = record { denom = "ujoe"; amount = 12 } ∷ [] }

abbrev pub pending : PendingBatch
pending = record { id = 3; usteak_to_burn = 30; est_unbond_start_time = 1500 }

abbrev pub batches : List Batch
batches =
    record {
      id = 1;
      reconciled = true;
      total_shares = 60;
      amount_unclaimed = 91;
      est_unbond_end_time = 1000;
    }
    ∷ record {
      id = 2;
      reconciled = false;
      total_shares = 5;
      amount_unclaimed = 45;
      est_unbond_end_time = 1900;
    }
    ∷ []

abbrev pub requests : List UnbondRequest
requests =
    record { id = 1; user = "alice"; shares = 40 }
    ∷ record { id = 1; user = "bob"; shares = 20 }
    ∷ record { id = 2; user = "alice"; shares = 5 }
    ∷ record { id = 3; user = "bob"; shares = 30 }
    ∷ []

-- A storage after a while.
abbrev pub storage : State
storage = record empty_state {
  owner = some "owner";
  fee_account_type = some FeeType.wallet;
  fee_account = some "treasury";
  fee_rate = some (decimal_fractional / 10);
  max_fee_rate = some (decimal_fractional / 5);
  denom = some "ujoe";
  steak_token = some "steak";
  epoch_period = some 100;
  unbond_period = some 700;
  validators = some ("v1" ∷ "v2" ∷ []);
  unlocked_coins = some (record { denom = "ujoe"; amount = 9 } ∷ []);
  pending_batch = some pending;
  previous_batches = batches;
  unbond_requests = requests;
  validators_active = some ("v1" ∷ "v2" ∷ []);
  prev_denom = some 10;
  miner_entropy = some "entropy";
  miner_entropy_draft = some "draft";
  miner_difficulty = some 2;
  miner_last_mined_timestamp = some 1990;
  miner_last_mined_block = some 25;
  validator_mining_powers = ("v1", 3) ∷ ("v2", 4) ∷ [];
  total_mining_power = some 7;
}

alice-bob : (user : String) → str_eq "alice" user ≡ true → str_eq "bob" user ≡ false
alice-bob user e = rw (← (eq_iff "alice" user).0 e) refl

pub storage-Balanced : Balanced storage
unfolding find_batch
storage-Balanced = record {
  queued = refl;
  later = λ id h. ground arith;
  shared = λ id b h. ground arith;
  fresh = λ id h. ground arith;
  one_batch = λ id. ground arith;
  one_request = λ id user. ground (arith, alice-bob user);
}

-- What a call returns; the storage and nothing else where it fails.
abbrev pub outcome : Result (State × Response) → State × Response
outcome (ok out) = out
outcome (err e) = (storage, record { messages = []; events = []; attributes = [] })

abbrev pub delegations : List Delegation
delegations =
    record { validator = "v1"; amount = 100; denom = "ujoe" }
    ∷ record { validator = "v2"; amount = 61; denom = "ujoe" }
    ∷ []
