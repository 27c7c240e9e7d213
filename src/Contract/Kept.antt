-- ===== src/Contract/Kept.antt =====
-- Every message that `execute` of contracts/hub/src/contract.rs accepts keeps the storage sound.
use joe_liquid_staking.Prelude.{
  ◌≡◌, String, ok, bind_ok, guard-eq-ok, load, str_eq, ok_or, invalid, unwrap_or,
}
use joe_liquid_staking.Types.{
  Cosmwasm, IsCosmwasm, Env, MessageInfo, Cw20ReceiveMsg, ExecuteMsg, CallbackMsg, ReceiveMsg,
  Response,
}
use joe_liquid_staking.State.{State, assert_owner}
use joe_liquid_staking.Execute.Withdraw.{withdraw_unbonded, withdraw_unbonded_admin}
use joe_liquid_staking.Ledger.Queue.{queue_unbond-Balanced}
use joe_liquid_staking.Ledger.Submit.{submit_batch-Balanced}
use joe_liquid_staking.Ledger.Withdraw.{withdraw_unbonded-Balanced}
use joe_liquid_staking.Ledger.Reconciled.{reconcile-Balanced}
use joe_liquid_staking.Ledger.Order.{
  queue_unbond-InOrder, submit_batch-InOrder, reconcile-InOrder, withdraw_unbonded-InOrder,
}
use joe_liquid_staking.Contract.{execute, receive, receive_hook, callback, addr_or}
use joe_liquid_staking.Contract.Frame
use joe_liquid_staking.Contract.Invariant.{
  IsSound, IsSound-SameNumbers, IsSound-Same, IsSound-SameQueue, numbers, update_fee-Numbers,
  update_entropy-Numbers, submit_proof-Numbers,
}

module _ {cw : Cosmwasm} (law : IsCosmwasm cw) (env : Env) (info : MessageInfo) (s : State)
    (out : State × Response) (h : IsSound s) where
  receive_hook-IsSound :
      (msg : Cw20ReceiveMsg) (body : ReceiveMsg)
      → receive_hook cw env info msg body s ≡ ok out
      → IsSound out.0
  unfolding receive_hook
  receive_hook-IsSound msg (ReceiveMsg.queue_unbond receiver) e =
      bind_ok (load s.steak_token) _ e λ steak_token _ e.
        let (_, e) = guard-eq-ok (str_eq info.sender steak_token) _ _ e in
        bind_ok (cw.addr_validate (unwrap_or receiver msg.sender)) _ e λ address _ e.
          IsSound-SameNumbers s out.0
            (Frame.queue_unbond-SameNumbers env address msg.amount s out e)
            (queue_unbond-Balanced env address msg.amount s h.books e)
            (queue_unbond-InOrder env address msg.amount s out h.order e) h

  receive-IsSound : (msg : Cw20ReceiveMsg) → receive cw env info msg s ≡ ok out → IsSound out.0
  unfolding receive
  receive-IsSound msg e =
      bind_ok (ok_or msg.msg invalid) _ e λ body _ e. receive_hook-IsSound msg body e

  callback-IsSound : (msg : CallbackMsg) → callback cw env info msg s ≡ ok out → IsSound out.0
  unfolding callback
  callback-IsSound CallbackMsg.reinvest e =
      let (_, e) = guard-eq-ok (str_eq env.contract info.sender) _ _ e in
      IsSound-Same s out.0 (Frame.reinvest-Same cw env s out e) h

  withdraw-IsSound :
      (user receiver : String) → withdraw_unbonded cw env user receiver s ≡ ok out → IsSound out.0
  withdraw-IsSound user receiver e =
      IsSound-SameNumbers s out.0 (Frame.withdraw_unbonded-SameNumbers cw env user receiver s out e)
        (withdraw_unbonded-Balanced law env user receiver s out h.books e)
        (withdraw_unbonded-InOrder law env user receiver s out h.order e) h

  withdraw_admin-IsSound :
      (user receiver : String)
      → withdraw_unbonded_admin cw env user receiver s ≡ ok out
      → IsSound out.0
  unfolding withdraw_unbonded_admin
  withdraw_admin-IsSound user receiver e =
      bind_ok (assert_owner s user) _ e λ _ _ e. withdraw-IsSound receiver receiver e

  -- Every message that the hub accepts keeps its storage sound: whatever `execute` is called with
  -- in a sound storage, if it succeeds then each batch still counts exactly the shares that the
  -- requests hold in it, no batch or request is ahead of the pending batch and no key is stored
  -- twice, the maps are in key order, the fee is at most the largest fee, the mining difficulty is
  -- at least 1, and the validators' mining powers add up to the total.
  pub execute-IsSound : (msg : ExecuteMsg) → execute cw env info msg s ≡ ok out → IsSound out.0
  unfolding execute
  execute-IsSound (ExecuteMsg.receive msg) e = receive-IsSound msg e
  execute-IsSound (ExecuteMsg.bond receiver) e =
      bind_ok (addr_or cw receiver info.sender) _ e
        λ address _ e. IsSound-Same s out.0 (Frame.bond-Same cw env address info.funds s out e) h
  execute-IsSound (ExecuteMsg.withdraw_unbonded receiver) e =
      bind_ok (addr_or cw receiver info.sender) _ e
        λ address _ e. withdraw-IsSound info.sender address e
  execute-IsSound (ExecuteMsg.withdraw_unbonded_admin user) e =
      bind_ok (cw.addr_validate user) _ e
        λ address _ e. withdraw_admin-IsSound info.sender address e
  execute-IsSound (ExecuteMsg.add_validator v) e =
      IsSound-Same s out.0 (Frame.add_validator-Same info.sender v s out e) h
  execute-IsSound (ExecuteMsg.remove_validator v) e =
      IsSound-Same s out.0 (Frame.remove_validator-Same cw env info.sender v s out e) h
  execute-IsSound (ExecuteMsg.remove_validator_ex v) e =
      IsSound-Same s out.0 (Frame.remove_validator_ex-Same info.sender v s out e) h
  execute-IsSound (ExecuteMsg.pause_validator v) e =
      IsSound-Same s out.0 (Frame.pause_validator-Same info.sender v s out e) h
  execute-IsSound (ExecuteMsg.unpause_validator v) e =
      IsSound-Same s out.0 (Frame.unpause_validator-Same info.sender v s out e) h
  execute-IsSound (ExecuteMsg.transfer_ownership o) e =
      IsSound-Same s out.0 (Frame.transfer_ownership-Same cw info.sender o s out e) h
  execute-IsSound ExecuteMsg.accept_ownership e =
      IsSound-Same s out.0 (Frame.accept_ownership-Same info.sender s out e) h
  execute-IsSound ExecuteMsg.harvest e =
      IsSound-Same s out.0 (Frame.harvest-Same cw env info.sender s out e) h
  execute-IsSound (ExecuteMsg.rebalance minimum) e =
      IsSound-Same s out.0 (Frame.rebalance-Same cw env minimum s out e) h
  execute-IsSound ExecuteMsg.reconcile e =
      IsSound-SameNumbers s out.0 (Frame.reconcile-SameNumbers cw env s out e)
        (reconcile-Balanced cw env s out h.books e) (reconcile-InOrder cw env s out h.order e) h
  execute-IsSound ExecuteMsg.submit_batch e =
      IsSound-SameNumbers s out.0 (Frame.submit_batch-SameNumbers cw env s out e)
        (submit_batch-Balanced cw env s out h.books e) (submit_batch-InOrder cw env s out h.order e)
        h
  execute-IsSound (ExecuteMsg.set_unbond_period period) e =
      IsSound-Same s out.0 (Frame.set_unbond_period-Same info.sender period s out e) h
  execute-IsSound (ExecuteMsg.transfer_fee_account ty account) e =
      IsSound-Same s out.0 (Frame.transfer_fee_account-Same cw info.sender ty account s out e) h
  execute-IsSound (ExecuteMsg.update_fee fee) e =
      IsSound-SameQueue s out.0 (Frame.update_fee-SameQueue info.sender fee s out e)
        (update_fee-Numbers info.sender fee s out (numbers h) e) h
  execute-IsSound (ExecuteMsg.update_entropy entropy) e =
      IsSound-SameQueue s out.0 (Frame.update_entropy-SameQueue cw env entropy s out e)
        (update_entropy-Numbers cw env entropy s out (numbers h) e) h
  execute-IsSound (ExecuteMsg.submit_proof nonce v) e =
      IsSound-SameQueue s out.0 (Frame.submit_proof-SameQueue cw env info.sender nonce v s out e)
        (submit_proof-Numbers cw env info.sender nonce v s out (numbers h) e) h
  execute-IsSound (ExecuteMsg.callback msg) e = callback-IsSound msg e
