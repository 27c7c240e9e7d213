-- ===== src/Contract/Powerless.antt =====
-- A storage of the hub in which the total mining power was never saved: no call saves it.
use joe_liquid_staking.Prelude.{
  ℕ, ◌≡◌, ◌∙◌, String, Bool, none, List, ok, Result, bind_ok, guard-eq-ok, load, str_eq, ok_or,
  invalid, unwrap_or, arith,
}
use joe_liquid_staking.Types.{
  Cosmwasm, Env, MessageInfo, Cw20ReceiveMsg, ExecuteMsg, CallbackMsg, ReceiveMsg, Response,
}
use Prim.Native.Char.{Char}
use joe_liquid_staking.State.{State}
use joe_liquid_staking.Execute.Manage.{update_fee}
use joe_liquid_staking.Execute.Mining.{update_entropy, update_difficulty, submit_proof}
use joe_liquid_staking.Execute.Instantiate.{register_steak_token, ReplyEvent}
use joe_liquid_staking.Execute.Reply.{register_received_coins, reply}
use joe_liquid_staking.Contract.{execute, receive, receive_hook, callback, addr_or}
use joe_liquid_staking.Contract.Frame
use joe_liquid_staking.Contract.Reach.{Step}

abbrev pub IsPowerless : State → Type 0
IsPowerless s = s.total_mining_power ≡ none

module _ (cw : Cosmwasm) (env : Env) where
  -- A proof is never accepted in such a storage.
  pub submit_proof-IsPowerless :
      (sender : String) (nonce : ℕ) (v : String) (s : State) (out : State × Response)
      → IsPowerless s
      → ¬ (submit_proof cw env sender nonce v s ≡ ok out)
  unfolding submit_proof
  submit_proof-IsPowerless sender nonce v s out h e = ground arith

  update_entropy-IsPowerless :
      (entropy : String) (s : State) (out : State × Response)
      → IsPowerless s
      → update_entropy cw env entropy s ≡ ok out
      → IsPowerless out.0
  unfolding update_entropy update_difficulty
  update_entropy-IsPowerless entropy s out h e = ground arith

update_fee-IsPowerless :
    (sender : String) (fee : ℕ) (s : State) (out : State × Response)
    → IsPowerless s
    → update_fee sender fee s ≡ ok out
    → IsPowerless out.0
unfolding update_fee
update_fee-IsPowerless sender fee s out h e = ground arith

module _ (is_alphabetic : Char → Bool) (uint128_from_str : String → Result ℕ) (cw : Cosmwasm) where
  reply-IsPowerless :
      (env : Env) (id : ℕ) (events : List ReplyEvent) (s : State) (out : State × Response)
      → IsPowerless s
      → reply is_alphabetic uint128_from_str cw env id events s ≡ ok out
      → IsPowerless out.0
  unfolding reply register_steak_token register_received_coins
  reply-IsPowerless env id events s out h e = ground arith

module _ (cw : Cosmwasm) (env : Env) (info : MessageInfo) (s : State) (out : State × Response)
    (h : IsPowerless s) where
  same : Frame.SameNumbers s out.0 → IsPowerless out.0
  same numbers = numbers.total_mining_power ∙ h

  receive_hook-IsPowerless :
      (msg : Cw20ReceiveMsg) (body : ReceiveMsg)
      → receive_hook cw env info msg body s ≡ ok out
      → IsPowerless out.0
  unfolding receive_hook
  receive_hook-IsPowerless msg (ReceiveMsg.queue_unbond receiver) e =
      bind_ok (load s.steak_token) _ e λ steak_token _ e.
        let (_, e) = guard-eq-ok (str_eq info.sender steak_token) _ _ e in
        bind_ok (cw.addr_validate (unwrap_or receiver msg.sender)) _ e
          λ address _ e. same (Frame.queue_unbond-SameNumbers env address msg.amount s out e)

  callback-IsPowerless :
      (msg : CallbackMsg) → callback cw env info msg s ≡ ok out → IsPowerless out.0
  unfolding callback
  callback-IsPowerless CallbackMsg.reinvest e =
      let (_, e) = guard-eq-ok (str_eq env.contract info.sender) _ _ e in
      same (Frame.reinvest-Same cw env s out e).1

  pub execute-IsPowerless :
      (msg : ExecuteMsg) → execute cw env info msg s ≡ ok out → IsPowerless out.0
  unfolding execute receive
  execute-IsPowerless (ExecuteMsg.receive msg) e =
      bind_ok (ok_or msg.msg invalid) _ e λ body _ e. receive_hook-IsPowerless msg body e
  execute-IsPowerless (ExecuteMsg.bond receiver) e =
      bind_ok (addr_or cw receiver info.sender) _ e
        λ address _ e. same (Frame.bond-Same cw env address info.funds s out e).1
  execute-IsPowerless (ExecuteMsg.withdraw_unbonded receiver) e =
      bind_ok (addr_or cw receiver info.sender) _ e
        λ address _ e. same (Frame.withdraw_unbonded-SameNumbers cw env info.sender address s out e)
  execute-IsPowerless (ExecuteMsg.withdraw_unbonded_admin user) e =
      bind_ok (cw.addr_validate user) _ e λ address _ e.
        same (Frame.withdraw_unbonded_admin-SameNumbers cw env info.sender address s out e)
  execute-IsPowerless (ExecuteMsg.add_validator v) e =
      same (Frame.add_validator-Same info.sender v s out e).1
  execute-IsPowerless (ExecuteMsg.remove_validator v) e =
      same (Frame.remove_validator-Same cw env info.sender v s out e).1
  execute-IsPowerless (ExecuteMsg.remove_validator_ex v) e =
      same (Frame.remove_validator_ex-Same info.sender v s out e).1
  execute-IsPowerless (ExecuteMsg.pause_validator v) e =
      same (Frame.pause_validator-Same info.sender v s out e).1
  execute-IsPowerless (ExecuteMsg.unpause_validator v) e =
      same (Frame.unpause_validator-Same info.sender v s out e).1
  execute-IsPowerless (ExecuteMsg.transfer_ownership o) e =
      same (Frame.transfer_ownership-Same cw info.sender o s out e).1
  execute-IsPowerless ExecuteMsg.accept_ownership e =
      same (Frame.accept_ownership-Same info.sender s out e).1
  execute-IsPowerless ExecuteMsg.harvest e = same (Frame.harvest-Same cw env info.sender s out e).1
  execute-IsPowerless (ExecuteMsg.rebalance minimum) e =
      same (Frame.rebalance-Same cw env minimum s out e).1
  execute-IsPowerless ExecuteMsg.reconcile e = same (Frame.reconcile-SameNumbers cw env s out e)
  execute-IsPowerless ExecuteMsg.submit_batch e =
      same (Frame.submit_batch-SameNumbers cw env s out e)
  execute-IsPowerless (ExecuteMsg.set_unbond_period period) e =
      same (Frame.set_unbond_period-Same info.sender period s out e).1
  execute-IsPowerless (ExecuteMsg.transfer_fee_account ty account) e =
      same (Frame.transfer_fee_account-Same cw info.sender ty account s out e).1
  execute-IsPowerless (ExecuteMsg.update_fee fee) e =
      update_fee-IsPowerless info.sender fee s out h e
  execute-IsPowerless (ExecuteMsg.update_entropy entropy) e =
      update_entropy-IsPowerless cw env entropy s out h e
  execute-IsPowerless (ExecuteMsg.submit_proof nonce v) e =
      absurd (submit_proof-IsPowerless cw env info.sender nonce v s out h e)
  execute-IsPowerless (ExecuteMsg.callback msg) e = callback-IsPowerless msg e

-- No call of the hub saves the total mining power where it is missing.
pub Step-IsPowerless : {cw : Cosmwasm} {s t : State} → Step cw s t → IsPowerless s → IsPowerless t
Step-IsPowerless {cw} (Step.executed env info msg s out e) h =
    execute-IsPowerless cw env info s out h msg e
Step-IsPowerless {cw} (Step.replied is_alphabetic uint128_from_str env id events s out e) h =
    reply-IsPowerless is_alphabetic uint128_from_str cw env id events s out h e
