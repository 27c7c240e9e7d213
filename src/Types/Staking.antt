-- ===== src/Types/Staking.antt =====
-- contracts/hub/src/types/staking.rs: delegations, undelegations, redelegations and reward
-- withdrawals, and the messages they become.
use joe_liquid_staking.Prelude.{ℕ, String}
use joe_liquid_staking.Types.Interface.{Proto, CosmosMsg}

pub record Delegation : Type 0 where
  pub validator : String
  pub amount : ℕ
  pub denom : String

pub record Undelegation : Type 0 where
  pub validator : String
  pub amount : ℕ
  pub denom : String

pub record Redelegation : Type 0 where
  pub src : String
  pub dst : String
  pub amount : ℕ
  pub denom : String

pub record RewardWithdrawal : Type 0 where
  pub validator : String

-- The four `to_cosmos_msg` methods.
unfoldable pub delegation_msg : Delegation → String → CosmosMsg
delegation_msg d delegator =
    CosmosMsg.stargate "/liquidstaking.staking.v1beta1.MsgDelegate"
      (Proto.msg_delegate delegator d.validator (record { denom = d.denom; amount = d.amount }))

unfoldable pub undelegation_msg : Undelegation → String → CosmosMsg
undelegation_msg d delegator =
    CosmosMsg.stargate "/liquidstaking.staking.v1beta1.MsgUndelegate"
      (Proto.msg_undelegate delegator d.validator (record { denom = d.denom; amount = d.amount }))

unfoldable pub redelegation_msg : Redelegation → String → CosmosMsg
redelegation_msg d delegator =
    CosmosMsg.stargate "/liquidstaking.staking.v1beta1.MsgBeginRedelegate" (
      Proto.msg_begin_redelegate delegator d.src d.dst
        (record { denom = d.denom; amount = d.amount }))

unfoldable pub reward_withdrawal_msg : RewardWithdrawal → String → CosmosMsg
reward_withdrawal_msg d delegator =
    CosmosMsg.stargate "/liquidstaking.distribution.v1beta1.MsgWithdrawDelegatorReward"
      (Proto.msg_withdraw_delegator_reward delegator d.validator)
