-- ===== src/Contract/Covered.antt =====
-- The hub of contracts/hub/src beside the token: the shares that wait to be burned and the shares
-- that the hub's account holds.
use joe_liquid_staking.Prelude.{
  ℕ, ◌+◌, ◌≡◌, refl, ap, String, Option, none, some, List, [], ◌∷◌, ok, arith, bind_ok, guard-eq-ok,
  load, load-eq-ok, ok_or, invalid, unwrap_or, str_eq, if◌then◌else◌,
}
use joe_liquid_staking.Types.{
  Cosmwasm, Env, MessageInfo, Cw20ReceiveMsg, ExecuteMsg, CallbackMsg, ReceiveMsg, Response,
  PendingBatch, respond, Undelegation, undelegation_msg, SubMsg, CosmosMsg, WasmBody,
}
use joe_liquid_staking.State.{State}
use mathlib.Core.Path.{subst}
use joe_liquid_staking.Execute.Unbond.{queue_unbond, submit_batch}
use joe_liquid_staking.Contract.{execute, receive, receive_hook, addr_or}
use joe_liquid_staking.Contract.Shares
use joe_liquid_staking.Contract.Shares.Manage
use joe_liquid_staking.Contract.Shares.{NoBurn, burned, burned-map}
use joe_liquid_staking.Ledger.Queue.{queue_unbond-eq-ok}
use joe_liquid_staking.Ledger.Submit.{submit_batch-eq-ok, submit_msgs}
use joe_liquid_staking.Execute.Bond.{reply_register_received_coins}

-- The shares that wait in the pending batch.
abbrev queued_in : Option PendingBatch → ℕ
queued_in none = 0
queued_in (some pending) = pending.usteak_to_burn

abbrev pub queued : State → ℕ
queued s = queued_in s.pending_batch

-- The shares that come with a message: the amount of a receive message of the token.
abbrev pub received : String → MessageInfo → ExecuteMsg → ℕ
received token info (ExecuteMsg.receive msg) = if str_eq info.sender token then msg.amount else 0
received token info msg = 0

-- The shares before a call and those that arrive with it, accounted for after it.
pub record Accounted (before arrived : ℕ) (s : State) (out : State × Response) : Type 0 where
  pub token : out.0.steak_token ≡ s.steak_token
  pub shares : queued out.0 + burned out.1.messages ≡ before + arrived

submit_msgs-burned :
    (env : Env) (token : String) (amount : ℕ) (us : List Undelegation)
    → burned (submit_msgs env token amount us) ≡ amount
unfolding undelegation_msg
submit_msgs-burned env token amount us = omega (
  arith,
  burned-map
      (λ (u : Undelegation).
        SubMsg.reply_on_success (undelegation_msg u env.contract) reply_register_received_coins)
      (λ u. refl) us
      (SubMsg.plain (CosmosMsg.wasm_execute token (WasmBody.cw20_burn amount) []) ∷ []),
)

module _ (cw : Cosmwasm) (token : String) (env : Env) (info : MessageInfo) (s : State)
    (out : State × Response) (known : s.steak_token ≡ some token) where
  unburned : NoBurn s out → Accounted (queued s) 0 s out
  unburned same = record {
    token = same.token;
    shares = omega (arith, ap queued_in same.pending, same.nothing);
  }

  queue_unbond-Accounted :
      (receiver : String) (amount : ℕ)
      → queue_unbond env receiver amount s ≡ ok out
      → Accounted (queued s) amount s out
  unfolding queue_unbond respond
  queue_unbond-Accounted receiver amount h =
      let (pending, shares, ep, _, eo) = queue_unbond-eq-ok env receiver amount s h in
      let nothing : burned out.1.messages ≡ 0 = ground arith in
      record { token = rw eo refl; shares = rw (eo, ep) (omega (arith, nothing)) }

  submit_batch-Accounted : submit_batch cw env s ≡ ok out → Accounted (queued s) 0 s out
  unfolding submit_batch
  submit_batch-Accounted h =
      let done = submit_batch-eq-ok cw env s out h in
      record {
        token = ground arith;
        shares =
            rw (done.next, done.loaded)
              (omega (
                arith,
                ap burned done.messages,
                submit_msgs-burned env done.token done.pending.usteak_to_burn done.undelegations,
              ));
      }

  receive-Accounted :
      (msg : Cw20ReceiveMsg)
      → receive cw env info msg s ≡ ok out
      → Accounted (queued s) (received token info (ExecuteMsg.receive msg)) s out
  unfolding receive receive_hook
  receive-Accounted msg e = bind_ok (ok_or msg.msg invalid) _ e λ body _ e. go body e
    where
      go :
          (body : ReceiveMsg)
          → receive_hook cw env info msg body s ≡ ok out
          → Accounted (queued s) (received token info (ExecuteMsg.receive msg)) s out
      go (ReceiveMsg.queue_unbond receiver) e = bind_ok (load s.steak_token) _ e λ stored loaded e.
          let (from, e) = guard-eq-ok (str_eq info.sender stored) _ _ e in
          bind_ok (cw.addr_validate (unwrap_or receiver msg.sender)) _ e λ address _ e.
            let same : stored ≡ token = cc (load-eq-ok s.steak_token stored loaded, known) in
            let amount : msg.amount ≡ received token info (ExecuteMsg.receive msg) =
              rw (← same) (rw from refl) in
            subst (λ n. Accounted (queued s) n s out) amount
              (queue_unbond-Accounted address msg.amount e)

  -- What comes with a call, and what was queued, is queued or burned.
  pub execute-Accounted :
      (msg : ExecuteMsg)
      → execute cw env info msg s ≡ ok out
      → Accounted (queued s) (received token info msg) s out
  unfolding execute
  execute-Accounted (ExecuteMsg.receive msg) e = receive-Accounted msg e
  execute-Accounted (ExecuteMsg.bond receiver) e =
      bind_ok (addr_or cw receiver info.sender) _ e
        λ address _ e. unburned (Shares.bond-NoBurn cw env address info.funds s out e)
  execute-Accounted (ExecuteMsg.withdraw_unbonded receiver) e =
      bind_ok (addr_or cw receiver info.sender) _ e
        λ address _ e. unburned (Shares.withdraw_unbonded-NoBurn cw env info.sender address s out e)
  execute-Accounted (ExecuteMsg.withdraw_unbonded_admin user) e =
      bind_ok (cw.addr_validate user) _ e λ address _ e.
        unburned (Shares.withdraw_unbonded_admin-NoBurn cw env info.sender address s out e)
  execute-Accounted (ExecuteMsg.add_validator v) e =
      unburned (Manage.add_validator-NoBurn info.sender v s out e)
  execute-Accounted (ExecuteMsg.remove_validator v) e =
      unburned (Shares.remove_validator-NoBurn cw env info.sender v s out e)
  execute-Accounted (ExecuteMsg.remove_validator_ex v) e =
      unburned (Manage.remove_validator_ex-NoBurn info.sender v s out e)
  execute-Accounted (ExecuteMsg.pause_validator v) e =
      unburned (Manage.pause_validator-NoBurn info.sender v s out e)
  execute-Accounted (ExecuteMsg.unpause_validator v) e =
      unburned (Manage.unpause_validator-NoBurn info.sender v s out e)
  execute-Accounted (ExecuteMsg.transfer_ownership o) e =
      unburned (Shares.transfer_ownership-NoBurn cw info.sender o s out e)
  execute-Accounted ExecuteMsg.accept_ownership e =
      unburned (Manage.accept_ownership-NoBurn info.sender s out e)
  execute-Accounted ExecuteMsg.harvest e =
      unburned (Shares.harvest-NoBurn cw env info.sender s out e)
  execute-Accounted (ExecuteMsg.rebalance minimum) e =
      unburned (Shares.rebalance-NoBurn cw env minimum s out e)
  execute-Accounted ExecuteMsg.reconcile e = unburned (Shares.reconcile-NoBurn cw env s out e)
  execute-Accounted ExecuteMsg.submit_batch e = submit_batch-Accounted e
  execute-Accounted (ExecuteMsg.set_unbond_period period) e =
      unburned (Manage.set_unbond_period-NoBurn info.sender period s out e)
  execute-Accounted (ExecuteMsg.transfer_fee_account ty account) e =
      unburned (Shares.transfer_fee_account-NoBurn cw info.sender ty account s out e)
  execute-Accounted (ExecuteMsg.update_fee fee) e =
      unburned (Manage.update_fee-NoBurn info.sender fee s out e)
  execute-Accounted (ExecuteMsg.update_entropy entropy) e =
      unburned (Shares.update_entropy-NoBurn cw env entropy s out e)
  execute-Accounted (ExecuteMsg.submit_proof nonce v) e =
      unburned (Shares.submit_proof-NoBurn cw env info.sender nonce v s out e)
  execute-Accounted (ExecuteMsg.callback CallbackMsg.reinvest) e =
      let (_, e) = guard-eq-ok (str_eq env.contract info.sender) _ _ e in
      unburned (Shares.reinvest-NoBurn cw env s out e)
