-- ===== src/Contract/Cases.antt =====
-- The messages of `execute` of contracts/hub/src/contract.rs by what they do to the unbonding queue.
use joe_liquid_staking.Prelude.{
  ◌≡◌, ◌⊎◌, inl, inr, refl, sym, ◌∙◌, ap, String, some, ok, bind_ok, guard-eq-ok, load, load-eq-ok,
  ok_or, invalid, unwrap_or, str_eq, eq_iff,
}
use joe_liquid_staking.Types.{
  Cosmwasm, Env, MessageInfo, Cw20ReceiveMsg, ExecuteMsg, CallbackMsg, ReceiveMsg, Response,
}
use joe_liquid_staking.State.{State, assert_owner}
use joe_liquid_staking.Execute.Manage.Owner.{assert_owner-eq-ok}
use joe_liquid_staking.Execute.Withdraw.{withdraw_unbonded, withdraw_unbonded_admin}
use joe_liquid_staking.Execute.Unbond.{queue_unbond, submit_batch}
use joe_liquid_staking.Execute.Reconcile.{reconcile}
use joe_liquid_staking.Contract.{execute, receive, receive_hook, callback, addr_or}
use joe_liquid_staking.Contract.Frame
use joe_liquid_staking.Contract.Frame.{SameQueue, SameNumbers}

module _ (cw : Cosmwasm) (env : Env) (info : MessageInfo) (s : State) (out : State × Response) where
  -- What is to be shown of a call that leaves the queue alone, of a withdrawal for the sender or by
  -- the owner, of a submission and of a reconciliation.
  pub record Cases (Goal : Type 0) : Type 0 where
    pub unmoved : SameQueue s out.0 → Goal
    pub withdrawn :
        (user receiver : String)
        → (user ≡ info.sender) ⊎ (s.owner ≡ some info.sender)
        → withdraw_unbonded cw env user receiver s ≡ ok out
        → Goal
    pub submitted : submit_batch cw env s ≡ ok out → Goal
    pub reconciled : reconcile cw env s ≡ ok out → Goal

module _ {cw : Cosmwasm} {env : Env} {info : MessageInfo} {s : State} {out : State × Response}
    {Goal : Type 0} (k : Cases cw env info s out Goal) where
  withdraws_admin :
      (receiver : String) → withdraw_unbonded_admin cw env info.sender receiver s ≡ ok out → Goal
  unfolding withdraw_unbonded_admin
  withdraws_admin receiver h =
      bind_ok (assert_owner s info.sender) _ h
        λ _ owned h. k.withdrawn receiver receiver (inr (assert_owner-eq-ok s info.sender owned)) h

  receives :
      (msg : Cw20ReceiveMsg)
      → receive cw env info msg s ≡ ok out
      → ((user : String)
          → s.steak_token ≡ some info.sender
          → queue_unbond env user msg.amount s ≡ ok out
          → Goal)
      → Goal
  unfolding receive receive_hook
  receives msg h queues = bind_ok (ok_or msg.msg invalid) _ h λ body _ h. go body h
    where
      go : (body : ReceiveMsg) → receive_hook cw env info msg body s ≡ ok out → Goal
      go (ReceiveMsg.queue_unbond receiver) h = bind_ok (load s.steak_token) _ h λ token loaded h.
          let (from, h) = guard-eq-ok (str_eq info.sender token) _ _ h in
          bind_ok (cw.addr_validate (unwrap_or receiver msg.sender)) _ h λ user _ h.
            queues user
              (load-eq-ok s.steak_token token loaded
                ∙ ap some (sym ((eq_iff info.sender token).0 from)))
              h

  -- Each message is one of these, or queues shares that the stored token sent.
  pub execute_cases :
      (msg : ExecuteMsg)
      → execute cw env info msg s ≡ ok out
      → ((m : Cw20ReceiveMsg) (user : String)
          → msg ≡ ExecuteMsg.receive m
          → s.steak_token ≡ some info.sender
          → queue_unbond env user m.amount s ≡ ok out
          → Goal)
      → Goal
  unfolding execute callback
  execute_cases (ExecuteMsg.receive msg) e queues = receives msg e λ user. queues msg user refl
  execute_cases (ExecuteMsg.bond receiver) e queues =
      bind_ok (addr_or cw receiver info.sender) _ e
        λ address _ e. k.unmoved (Frame.bond-Same cw env address info.funds s out e).0
  execute_cases (ExecuteMsg.withdraw_unbonded receiver) e queues =
      bind_ok (addr_or cw receiver info.sender) _ e
        λ address _ e. k.withdrawn info.sender address (inl refl) e
  execute_cases (ExecuteMsg.withdraw_unbonded_admin user) e queues =
      bind_ok (cw.addr_validate user) _ e λ address _ e. withdraws_admin address e
  execute_cases (ExecuteMsg.add_validator v) e queues =
      k.unmoved (Frame.add_validator-Same info.sender v s out e).0
  execute_cases (ExecuteMsg.remove_validator v) e queues =
      k.unmoved (Frame.remove_validator-Same cw env info.sender v s out e).0
  execute_cases (ExecuteMsg.remove_validator_ex v) e queues =
      k.unmoved (Frame.remove_validator_ex-Same info.sender v s out e).0
  execute_cases (ExecuteMsg.pause_validator v) e queues =
      k.unmoved (Frame.pause_validator-Same info.sender v s out e).0
  execute_cases (ExecuteMsg.unpause_validator v) e queues =
      k.unmoved (Frame.unpause_validator-Same info.sender v s out e).0
  execute_cases (ExecuteMsg.transfer_ownership o) e queues =
      k.unmoved (Frame.transfer_ownership-Same cw info.sender o s out e).0
  execute_cases ExecuteMsg.accept_ownership e queues =
      k.unmoved (Frame.accept_ownership-Same info.sender s out e).0
  execute_cases ExecuteMsg.harvest e queues =
      k.unmoved (Frame.harvest-Same cw env info.sender s out e).0
  execute_cases (ExecuteMsg.rebalance minimum) e queues =
      k.unmoved (Frame.rebalance-Same cw env minimum s out e).0
  execute_cases ExecuteMsg.reconcile e queues = k.reconciled e
  execute_cases ExecuteMsg.submit_batch e queues = k.submitted e
  execute_cases (ExecuteMsg.set_unbond_period period) e queues =
      k.unmoved (Frame.set_unbond_period-Same info.sender period s out e).0
  execute_cases (ExecuteMsg.transfer_fee_account ty account) e queues =
      k.unmoved (Frame.transfer_fee_account-Same cw info.sender ty account s out e).0
  execute_cases (ExecuteMsg.update_fee fee) e queues =
      k.unmoved (Frame.update_fee-SameQueue info.sender fee s out e)
  execute_cases (ExecuteMsg.update_entropy entropy) e queues =
      k.unmoved (Frame.update_entropy-SameQueue cw env entropy s out e)
  execute_cases (ExecuteMsg.submit_proof nonce v) e queues =
      k.unmoved (Frame.submit_proof-SameQueue cw env info.sender nonce v s out e)
  execute_cases (ExecuteMsg.callback CallbackMsg.reinvest) e queues =
      let (_, e) = guard-eq-ok (str_eq env.contract info.sender) _ _ e in
      k.unmoved (Frame.reinvest-Same cw env s out e).0
