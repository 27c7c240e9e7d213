-- ===== src/Queries.antt =====
-- contracts/hub/src/queries.rs and `query` of contracts/hub/src/contract.rs. A range query reads
-- the values of a map in key order, from the bound that `start_after` gives.
pub mod Pages
pub mod User
pub mod Walks
use joe_liquid_staking.Prelude.{
  ℕ, ◌+◌, ◌≡◌, min, String, Bool, Option, some, none, List, [], ◌∷◌, ◌++◌, map, Result, ok, ◌>>=◌,
  load, ok_or, StdError, unwrap_or, if◌then◌else◌, ◌==◌, ltb, str_lt, retain, take, as_bytes,
  be_bytes, bytes_lt, not_found,
}
use joe_liquid_staking.Types.{
  Cosmwasm, Env, Coin, FeeType, fee_type_to_string, PendingBatch, Batch, UnbondRequest,
  MinerParamsResponse, QueryMsg, ConfigResponse, StateResponse, UnbondRequestsByBatchResponseItem,
  UnbondRequestsByUserResponseItem, by_batch_item, by_user_item, ValidatorMiningPower,
  decimal_fractional,
}
use joe_liquid_staking.State.{State, find_batch, requests_of}
use joe_liquid_staking.Helpers.{query_cw20_total_supply, query_delegations}
use joe_liquid_staking.Math.{sum_amounts}

abbrev pub max_limit : ℕ
max_limit = 30

abbrev pub default_limit : ℕ
default_limit = 10

-- `limit.unwrap_or(DEFAULT_LIMIT).min(MAX_LIMIT)`
unfoldable pub limit_of : Option ℕ → ℕ
limit_of limit = min (unwrap_or limit default_limit) max_limit

-- The values whose key passes the test of the bound, which is that of `Bound::exclusive`.
unfoldable pub range_after {ℓ κ} :
    {K : Type ℓ} {A : Type κ} → (K → A → Bool) → Option K → List A → List A
range_after after none xs = xs
range_after after (some k) xs = retain (after k) xs

unfoldable pub config : State → Result ConfigResponse
config s = do
  owner ← load s.owner
  steak_token ← load s.steak_token
  epoch_period ← load s.epoch_period
  unbond_period ← load s.unbond_period
  denom ← load s.denom
  fee_type ← load s.fee_account_type
  fee_account ← load s.fee_account
  fee_rate ← load s.fee_rate
  max_fee_rate ← load s.max_fee_rate
  validators ← load s.validators
  ok (record {
    owner = owner;
    new_owner = s.new_owner;
    steak_token = steak_token;
    epoch_period = epoch_period;
    unbond_period = unbond_period;
    denom = denom;
    fee_type = fee_type_to_string fee_type;
    fee_account = fee_account;
    fee_rate = fee_rate;
    max_fee_rate = max_fee_rate;
    validators = validators;
  })

unfoldable pub pending_batch : State → Result PendingBatch
pending_batch s = load s.pending_batch

unfoldable pub previous_batch : ℕ → State → Result Batch
previous_batch id s = load (find_batch id s.previous_batches)

unfoldable pub previous_batches : Option ℕ → Option ℕ → State → Result (List Batch)
unfolding limit_of range_after
previous_batches start_after limit s =
    ok (take (limit_of limit) (range_after (λ id b. ltb id b.id) start_after s.previous_batches))

-- The requests of a batch, in the order of the users.
unfoldable pub in_batch : ℕ → List UnbondRequest → List UnbondRequest
in_batch id requests = retain (λ r. r.id == id) requests

-- The raw key of a request under the index `user`: the id with its length in front, then the user.
unfoldable pub request_key : UnbondRequest → List ℕ
request_key r = 0 ∷ 8 ∷ (be_bytes 8 r.id ++ as_bytes r.user)

-- The bound that `unbond_requests_by_user` makes of `start_after`; an exclusive bound of raw bytes
-- lets pass what is greater than the bytes.
unfoldable pub after_raw : ℕ → UnbondRequest → Bool
unfolding request_key
after_raw id r = bytes_lt (0 ∷ 8 ∷ be_bytes 8 id) (request_key r)

unfoldable pub unbond_requests_by_user :
    String → Option ℕ → Option ℕ → State → Result (List UnbondRequestsByUserResponseItem)
unfolding limit_of range_after after_raw
unbond_requests_by_user user start_after limit s = ok (
    map by_user_item (
      take (limit_of limit)
        (range_after after_raw start_after (requests_of user s.unbond_requests))))

unfoldable pub miner_params : State → Result MinerParamsResponse
miner_params s = do
  entropy ← load s.miner_entropy
  difficulty ← load s.miner_difficulty
  ok (record { entropy = entropy; difficulty = difficulty })

unfoldable pub power_item : String × ℕ → ValidatorMiningPower
power_item p = record { address = p.0; mining_power = p.1 }

unfoldable pub validator_mining_powers :
    Option String → Option ℕ → State → Result (List ValidatorMiningPower)
unfolding limit_of range_after power_item
validator_mining_powers start_after limit s = ok (
    map power_item (
      take (limit_of limit)
        (range_after (λ v p. str_lt v p.0) start_after s.validator_mining_powers)))

-- A response before `to_binary` encodes it.
pub data QueryResponse : Type 0 where
  config_response : ConfigResponse → QueryResponse
  state_response : StateResponse → QueryResponse
  pending_batch_response : PendingBatch → QueryResponse
  batch_response : Batch → QueryResponse
  batches_response : List Batch → QueryResponse
  by_batch_response : List UnbondRequestsByBatchResponseItem → QueryResponse
  by_user_response : List UnbondRequestsByUserResponseItem → QueryResponse
  miner_params_response : MinerParamsResponse → QueryResponse
  powers_response : List ValidatorMiningPower → QueryResponse

module _ (cw : Cosmwasm) where
  unfoldable pub state : Env → State → Result StateResponse
  state env s = do
    denom ← load s.denom
    steak_token ← load s.steak_token
    total_usteak ← query_cw20_total_supply cw steak_token
    validators ← load s.validators
    delegations ← query_delegations cw validators env.contract denom
    total_native ← sum_amounts delegations
    exchange_rate ←
        (if total_usteak == 0
          then ok decimal_fractional
          else cw.from_ratio total_native total_usteak)
    unlocked_coins ← load s.unlocked_coins
    ok (record {
      total_usteak = total_usteak;
      total_native = total_native;
      exchange_rate = exchange_rate;
      unlocked_coins = unlocked_coins;
    })

  -- `start_after` is an address and is validated.
  unfoldable pub start_address : Option String → Result (Option String)
  start_address none = ok none
  start_address (some a) = do address ← cw.addr_validate a; ok (some address)

  unfoldable pub unbond_requests_by_batch :
      ℕ → Option String → Option ℕ → State → Result (List UnbondRequestsByBatchResponseItem)
  unfolding limit_of range_after in_batch start_address
  unbond_requests_by_batch id start_after limit s = do
    start ← start_address start_after
    ok (
        map by_batch_item (
          take (limit_of limit)
            (range_after (λ u r. str_lt u r.user) start (in_batch id s.unbond_requests))))

  unfoldable pub query : Env → QueryMsg → State → Result QueryResponse
  unfolding config state pending_batch previous_batch previous_batches unbond_requests_by_batch
      unbond_requests_by_user miner_params validator_mining_powers
  query env QueryMsg.config s = do r ← config s; ok (config_response r)
  query env QueryMsg.state s = do r ← state env s; ok (state_response r)
  query env QueryMsg.pending_batch s = do r ← pending_batch s; ok (pending_batch_response r)
  query env (QueryMsg.previous_batch id) s = do r ← previous_batch id s; ok (batch_response r)
  query env (QueryMsg.previous_batches start_after limit) s = do
    r ← previous_batches start_after limit s
    ok (batches_response r)
  query env (QueryMsg.unbond_requests_by_batch id start_after limit) s = do
    r ← unbond_requests_by_batch id start_after limit s
    ok (by_batch_response r)
  query env (QueryMsg.unbond_requests_by_user user start_after limit) s = do
    r ← unbond_requests_by_user user start_after limit s
    ok (by_user_response r)
  query env QueryMsg.miner_params s = do r ← miner_params s; ok (miner_params_response r)
  query env (QueryMsg.validator_mining_powers start_after limit) s = do
    r ← validator_mining_powers start_after limit s
    ok (powers_response r)
