-- ===== src/Contract.antt =====
-- contracts/hub/src/contract.rs: the entry point `execute` with `receive` and `callback`, which
-- hand each message to its handler. `instantiate` is that of `Execute.Instantiate`; the contract
-- version that cw2 stores is left out.
pub mod Frame
pub mod Invariant
pub mod Kept
pub mod Reach
pub mod Powerless
pub mod Shares
pub mod Covered
pub mod Burns
pub mod Cases
pub mod Refines
pub mod Positive
use joe_liquid_staking.Prelude.{
  ℕ, String, Option, some, none, Result, err, ok, StdError, invalid, generic_err, ◌>>=◌, ◌>>◌,
  guard, load, ok_or, unwrap_or, str_eq,
}
use joe_liquid_staking.Types.{
  Cosmwasm, Env, MessageInfo, Cw20ReceiveMsg, ReceiveMsg, CallbackMsg, ExecuteMsg, Response,
}
use joe_liquid_staking.State.{State}
use joe_liquid_staking.Execute.Bond.{bond}
use joe_liquid_staking.Execute.Harvest.{harvest, reinvest}
use joe_liquid_staking.Execute.Unbond.{queue_unbond, submit_batch}
use joe_liquid_staking.Execute.Reconcile.{reconcile}
use joe_liquid_staking.Execute.Withdraw.{withdraw_unbonded, withdraw_unbonded_admin}
use joe_liquid_staking.Execute.Manage.{
  rebalance, add_validator, remove_validator, remove_validator_ex, pause_validator,
  unpause_validator, set_unbond_period, transfer_ownership, accept_ownership, transfer_fee_account,
  update_fee,
}
use joe_liquid_staking.Execute.Mining.{update_entropy, submit_proof}

module _ (cw : Cosmwasm) where
  -- `receiver.map(addr_validate).transpose()?.unwrap_or(info.sender)`
  unfoldable pub addr_or : Option String → String → Result String
  addr_or none sender = ok sender
  addr_or (some address) sender = cw.addr_validate address

  unfoldable pub receive_hook :
      Env → MessageInfo → Cw20ReceiveMsg → ReceiveMsg → State → Result (State × Response)
  receive_hook env info msg (ReceiveMsg.queue_unbond receiver) s = do
    steak_token ← load s.steak_token
    guard (str_eq info.sender steak_token) (generic_err "expecting Steak token, received {}")
    address ← cw.addr_validate (unwrap_or receiver msg.sender)
    queue_unbond env address msg.amount s

  unfoldable pub receive : Env → MessageInfo → Cw20ReceiveMsg → State → Result (State × Response)
  receive env info msg s = do body ← ok_or msg.msg invalid; receive_hook env info msg body s

  unfoldable pub callback : Env → MessageInfo → CallbackMsg → State → Result (State × Response)
  callback env info CallbackMsg.reinvest s = do
    guard (str_eq env.contract info.sender)
        (generic_err "callbacks can only be invoked by the contract itself")
    reinvest cw env s

  unfoldable pub execute : Env → MessageInfo → ExecuteMsg → State → Result (State × Response)
  unfolding receive callback addr_or
  execute env info (ExecuteMsg.receive msg) s = receive env info msg s
  execute env info (ExecuteMsg.bond receiver) s = do
    address ← addr_or receiver info.sender
    bond cw env address info.funds s
  execute env info (ExecuteMsg.withdraw_unbonded receiver) s = do
    address ← addr_or receiver info.sender
    withdraw_unbonded cw env info.sender address s
  execute env info (ExecuteMsg.withdraw_unbonded_admin user) s = do
    address ← cw.addr_validate user
    withdraw_unbonded_admin cw env info.sender address s
  execute env info (ExecuteMsg.add_validator v) s = add_validator info.sender v s
  execute env info (ExecuteMsg.remove_validator v) s = remove_validator cw env info.sender v s
  execute env info (ExecuteMsg.remove_validator_ex v) s = remove_validator_ex info.sender v s
  execute env info (ExecuteMsg.pause_validator v) s = pause_validator info.sender v s
  execute env info (ExecuteMsg.unpause_validator v) s = unpause_validator info.sender v s
  execute env info (ExecuteMsg.transfer_ownership o) s = transfer_ownership cw info.sender o s
  execute env info ExecuteMsg.accept_ownership s = accept_ownership info.sender s
  execute env info ExecuteMsg.harvest s = harvest cw env info.sender s
  execute env info (ExecuteMsg.rebalance minimum) s = rebalance cw env minimum s
  execute env info ExecuteMsg.reconcile s = reconcile cw env s
  execute env info ExecuteMsg.submit_batch s = submit_batch cw env s
  execute env info (ExecuteMsg.set_unbond_period period) s = set_unbond_period info.sender period s
  execute env info (ExecuteMsg.transfer_fee_account ty account) s =
      transfer_fee_account cw info.sender ty account s
  execute env info (ExecuteMsg.update_fee fee) s = update_fee info.sender fee s
  execute env info (ExecuteMsg.update_entropy entropy) s = update_entropy cw env entropy s
  execute env info (ExecuteMsg.submit_proof nonce validator) s =
      submit_proof cw env info.sender nonce validator s
  execute env info (ExecuteMsg.callback msg) s = callback env info msg s
