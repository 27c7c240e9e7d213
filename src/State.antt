-- ===== src/State.antt =====
-- contracts/hub/src/state.rs: the storage of the hub. An `Item` that was never saved is `none`; the
-- two indexed maps and the map of mining powers are lists in key order.
pub mod Order
use joe_liquid_staking.Prelude.{
  ℕ, String, Bool, Option, none, List, [], Result, generic_err, ◌>>=◌, guard, load, ltb, ◌==◌, ◌&&◌,
  str_eq, find, retain, not, if◌then◌else◌,
}
use joe_liquid_staking.Types.{Coin, FeeType, PendingBatch, Batch, UnbondRequest}
use joe_liquid_staking.Store.{put}
use text.Mathlib.Text.{is_lt}
use Prim.Native.String.{compare}

pub record State : Type 0 where
  pub owner : Option String
  pub new_owner : Option String
  pub fee_account_type : Option FeeType
  pub fee_account : Option String
  pub fee_rate : Option ℕ
  pub max_fee_rate : Option ℕ
  pub denom : Option String
  pub steak_token : Option String
  pub epoch_period : Option ℕ
  pub unbond_period : Option ℕ
  pub validators : Option (List String)
  pub unlocked_coins : Option (List Coin)
  pub pending_batch : Option PendingBatch
  pub previous_batches : List Batch
  pub unbond_requests : List UnbondRequest
  pub validators_active : Option (List String)
  pub prev_denom : Option ℕ
  pub miner_entropy : Option String
  pub miner_entropy_draft : Option String
  pub miner_difficulty : Option ℕ
  pub miner_last_mined_timestamp : Option ℕ
  pub miner_last_mined_block : Option ℕ
  pub validator_mining_powers : List (String × ℕ)
  pub total_mining_power : Option ℕ

-- The storage before `instantiate`.
abbrev pub empty_state : State
empty_state = record {
  owner = none;
  new_owner = none;
  fee_account_type = none;
  fee_account = none;
  fee_rate = none;
  max_fee_rate = none;
  denom = none;
  steak_token = none;
  epoch_period = none;
  unbond_period = none;
  validators = none;
  unlocked_coins = none;
  pending_batch = none;
  previous_batches = [];
  unbond_requests = [];
  validators_active = none;
  prev_denom = none;
  miner_entropy = none;
  miner_entropy_draft = none;
  miner_difficulty = none;
  miner_last_mined_timestamp = none;
  miner_last_mined_block = none;
  validator_mining_powers = [];
  total_mining_power = none;
}

unfoldable pub assert_owner : State → String → Result (Unit {0})
assert_owner s sender = do
  owner ← load s.owner
  guard (str_eq sender owner) (generic_err "unauthorized: sender is not owner")

-- `previous_batches`, keyed by id.
unfoldable pub find_batch : ℕ → List Batch → Option Batch
find_batch id batches = find (λ b. b.id == id) batches

unfoldable pub save_batch : Batch → List Batch → List Batch
save_batch = put (λ a b. a.id == b.id) (λ a b. ltb a.id b.id)

unfoldable pub remove_batch : ℕ → List Batch → List Batch
remove_batch id batches = retain (λ b. not (b.id == id)) batches

-- `unbond_requests`, keyed by id and user.
abbrev pub is_key : ℕ → String → UnbondRequest → Bool
is_key id user r = r.id == id && str_eq r.user user

unfoldable pub find_request : ℕ → String → List UnbondRequest → Option UnbondRequest
find_request id user requests = find (is_key id user) requests

unfoldable pub save_request : UnbondRequest → List UnbondRequest → List UnbondRequest
save_request =
    put (λ a b. is_key b.id b.user a)
      (λ a b. if a.id == b.id then is_lt (compare a.user b.user) else ltb a.id b.id)

unfoldable pub remove_request : ℕ → String → List UnbondRequest → List UnbondRequest
remove_request id user requests = retain (λ r. not (is_key id user r)) requests

-- The index `user` of `unbond_requests`: the requests of a user, by ascending id.
unfoldable pub requests_of : String → List UnbondRequest → List UnbondRequest
requests_of user requests = retain (λ r. str_eq r.user user) requests

-- The index `reconciled` of `previous_batches` at `false`.
unfoldable pub unreconciled : List Batch → List Batch
unreconciled batches = retain (λ b. not b.reconciled) batches

-- `validator_mining_powers`, keyed by address.
unfoldable pub find_power : String → List (String × ℕ) → Option (String × ℕ)
find_power address powers = find (λ p. str_eq p.0 address) powers

unfoldable pub save_power : String × ℕ → List (String × ℕ) → List (String × ℕ)
save_power = put (λ a b. str_eq a.0 b.0) (λ a b. is_lt (compare a.0 b.0))
