-- ===== src/Types/Query.antt =====
-- packages/steak/src/hub.rs: the queries and their responses.
use joe_liquid_staking.Prelude.{ℕ, String, Option, List}
use joe_liquid_staking.Types.Hub.{Coin, UnbondRequest}

pub data QueryMsg : Type 0 where
  config state pending_batch miner_params : QueryMsg
  previous_batch : ℕ → QueryMsg
  previous_batches : Option ℕ → Option ℕ → QueryMsg
  unbond_requests_by_batch : ℕ → Option String → Option ℕ → QueryMsg
  unbond_requests_by_user : String → Option ℕ → Option ℕ → QueryMsg
  validator_mining_powers : Option String → Option ℕ → QueryMsg

pub record ConfigResponse : Type 0 where
  pub owner : String
  pub new_owner : Option String
  pub steak_token : String
  pub epoch_period : ℕ
  pub unbond_period : ℕ
  pub denom : String
  pub fee_type : String
  pub fee_account : String
  pub fee_rate : ℕ
  pub max_fee_rate : ℕ
  pub validators : List String

pub record StateResponse : Type 0 where
  pub total_usteak : ℕ
  pub total_native : ℕ
  pub exchange_rate : ℕ
  pub unlocked_coins : List Coin

pub record UnbondRequestsByBatchResponseItem : Type 0 where
  pub user : String
  pub shares : ℕ

pub record UnbondRequestsByUserResponseItem : Type 0 where
  pub id : ℕ
  pub shares : ℕ

-- The two `From<UnbondRequest>`.
unfoldable pub by_batch_item : UnbondRequest → UnbondRequestsByBatchResponseItem
by_batch_item r = record { user = r.user; shares = r.shares }

unfoldable pub by_user_item : UnbondRequest → UnbondRequestsByUserResponseItem
by_user_item r = record { id = r.id; shares = r.shares }

pub record ValidatorMiningPower : Type 0 where
  pub address : String
  pub mining_power : ℕ
