-- ===== src/Contract/Positive.antt =====
-- Calls of contracts/hub/src/contract.rs in which the token sends shares, never none, as the token's
-- library has it.
use joe_liquid_staking.Prelude.{
  ℕ, ◌<◌, ◌≡◌, refl, Bool, String, ◌&&◌, some, List, [], Result, ok, arith, Bool-cases, inl, inr,
  u128_mod, str_eq, ◌==◌,
}
use Prim.Native.Char.{Char}
use mathlib.Core.Path.{subst}
use joe_liquid_staking.Store.Laws.{All-map}
use joe_liquid_staking.Types.{
  Cosmwasm, IsCosmwasm, Env, MessageInfo, ExecuteMsg, InstantiateMsg, Response, PendingBatch,
  UnbondRequest,
}
use joe_liquid_staking.State.{State, empty_state, find_request, requests_of, save_request}
use joe_liquid_staking.Math.Reconcile.{unclaimed}
use joe_liquid_staking.Execute.Instantiate.{
  instantiate, ReplyEvent, register_steak_token, reply_instantiate_token,
}
use joe_liquid_staking.Execute.Bond.{reply_register_received_coins}
use joe_liquid_staking.Execute.Reply.Received.{register_received_coins_adds}
use joe_liquid_staking.Ledger.{BooksOf}
use joe_liquid_staking.Execute.Reply.{reply}
use joe_liquid_staking.Execute.Withdraw.{withdraw_unbonded}
use joe_liquid_staking.Execute.Unbond.{queue_unbond}
use joe_liquid_staking.Contract.{execute}
use joe_liquid_staking.Contract.Cases.{execute_cases}
use joe_liquid_staking.Contract.Reach.{Step, Reach, reachable-IsSound}
use joe_liquid_staking.Ledger.Queue.{queue_unbond-eq-ok}
use joe_liquid_staking.Ledger.Submit.{submit_batch-eq-ok}
use joe_liquid_staking.Ledger.Reconciled.{reconcile-eq-ok}
use joe_liquid_staking.Ledger.Withdraw.{start, start-Stored, withdraw-eq-ok}
use joe_liquid_staking.Ledger.View.{find-save_request, claim_all-Cleared}
use joe_liquid_staking.Ledger.Exact.{owed, PaidExactly, withdraw_unbonded_exact}

-- A receive message brings shares.
abbrev pub Sends : ExecuteMsg → Type 0
Sends (ExecuteMsg.receive msg) = 0 < msg.amount
Sends msg = Unit

-- Every request has shares.
abbrev pub AllPositive : List UnbondRequest → Type 0
AllPositive requests =
    (id : ℕ) (user : String) (r : UnbondRequest)
    → find_request id user requests ≡ some r
    → 0 < r.shares

save-AllPositive :
    (r : UnbondRequest) (requests : List UnbondRequest)
    → 0 < r.shares
    → AllPositive requests
    → AllPositive (save_request r requests)
save-AllPositive r requests some_shares h id user x e =
    elim (Bool-cases (r.id == id && str_eq r.user user)) [
      | inl hit ↦ ground (arith, find-save_request id user r requests)
      | inr miss ↦ h id user x (ground (arith, find-save_request id user r requests))
    ]

module _ {cw : Cosmwasm} (law : IsCosmwasm cw) (env : Env) (info : MessageInfo) (s : State)
    (out : State × Response) (h : AllPositive s.unbond_requests) where
  queued-AllPositive :
      (user : String) (amount : ℕ)
      → 0 < amount
      → queue_unbond env user amount s ≡ ok out
      → AllPositive out.0.unbond_requests
  queued-AllPositive user amount some_amount e =
      let (pending, shares, ep, es, eo) = queue_unbond-eq-ok env user amount s e in
      rw eo (save-AllPositive _ s.unbond_requests (omega (arith, es, some_amount)) h)

  withdrawn-AllPositive :
      (user receiver : String)
      → withdraw_unbonded cw env user receiver s ≡ ok out
      → AllPositive out.0.unbond_requests
  unfolding start
  withdrawn-AllPositive user receiver e =
      let (_, c, ec, _, eo, _, _) = withdraw-eq-ok law env user receiver s out e in
      let (gone, after) = claim_all-Cleared law user env.time _ _ c ec in
      rw eo λ id u r found. h id u r (ground (arith, after id u))

  execute-AllPositive :
      (msg : ExecuteMsg)
      → Sends msg
      → execute cw env info msg s ≡ ok out
      → AllPositive out.0.unbond_requests
  execute-AllPositive msg sends e =
      execute_cases
        (record {
          unmoved = λ same. rw same.unbond_requests h;
          withdrawn = λ user receiver _ e. withdrawn-AllPositive user receiver e;
          submitted = λ e. rw (submit_batch-eq-ok cw env s out e).requests h;
          reconciled =
              λ e. let (_, _, _, _, _, _, _, _, _, eo) = reconcile-eq-ok cw env s out e in rw eo h;
        })
        msg e λ m user same _ e. queued-AllPositive user m.amount (subst Sends same sends) e

reply-requests :
    (is_alphabetic : Char → Bool) (uint128_from_str : String → Result ℕ) (cw : Cosmwasm) (env : Env)
    (id : ℕ) (events : List ReplyEvent) (s : State) (out : State × Response)
    → reply is_alphabetic uint128_from_str cw env id events s ≡ ok out
    → out.0.unbond_requests ≡ s.unbond_requests
unfolding reply register_steak_token
reply-requests is_alphabetic uint128_from_str cw env id events s out e =
    elim (Bool-cases (id == reply_instantiate_token)) [
      | inl first ↦ ground arith
      | inr other ↦ elim (Bool-cases (id == reply_register_received_coins)) [
        | inl second ↦
            elim (register_received_coins_adds is_alphabetic uint128_from_str env events s out
              (rw (other, second) at e)) [
                | inl same ↦ rw same.1 refl
                | inr (_, _, after, _, _, stored, _) ↦ rw stored refl
              ]
        | inr neither ↦ absurd (cc (rw (other, neither) at e))
      ]
    ]

-- The storages that follow a storage by calls in which the token sends shares, never none, and by
-- replies.
pub data Used (cw : Cosmwasm) (first : State) : State → Type 0 where
  unused : Used cw first first
  called :
      {s : State}
      → Used cw first s
      → (env : Env) (info : MessageInfo) (msg : ExecuteMsg) (out : State × Response) → Sends msg
      → execute cw env info msg s ≡ ok out
      → Used cw first out.0
  replied :
      {s : State}
      → Used cw first s
      → (is_alphabetic : Char → Bool) (uint128_from_str : String → Result ℕ) (env : Env) (id : ℕ)
        (events : List ReplyEvent) (out : State × Response)
      → reply is_alphabetic uint128_from_str cw env id events s ≡ ok out
      → Used cw first out.0

Used-Reach : {cw : Cosmwasm} {first s : State} → Used cw first s → Reach cw first s
Used-Reach Used.unused = Reach.started
Used-Reach (Used.called {s} used env info msg out sends e) =
    Reach.step (Used-Reach used) (Step.executed env info msg s out e)
Used-Reach (Used.replied {s} used is_alphabetic uint128_from_str env id events out e) =
    Reach.step (Used-Reach used) (Step.replied is_alphabetic uint128_from_str env id events s out e)

Used-AllPositive :
    {cw : Cosmwasm} {first s : State}
    → IsCosmwasm cw
    → AllPositive first.unbond_requests
    → Used cw first s
    → AllPositive s.unbond_requests
Used-AllPositive law h Used.unused = h
Used-AllPositive law h (Used.called {s} used env info msg out sends e) =
    execute-AllPositive law env info s out (Used-AllPositive law h used) msg sends e
Used-AllPositive {cw} law h
      (Used.replied {s} used is_alphabetic uint128_from_str env id events out e) =
    rw (reply-requests is_alphabetic uint128_from_str cw env id events s out e)
      (Used-AllPositive law h used)

instantiate-requests :
    (cw : Cosmwasm) (env : Env) (msg : InstantiateMsg) (out : State × Response)
    → instantiate cw env msg empty_state ≡ ok out
    → out.0.unbond_requests ≡ []
unfolding instantiate
instantiate-requests cw env msg out e = ground arith

-- After a successful `instantiate` and any calls and replies in which the token sends shares, never
-- none, a user who is owed something can withdraw exactly that: where a pending batch and a denom are
-- stored and the unclaimed amounts fit in 128 bits, the withdrawal succeeds, sends the receiver what
-- the user is owed, takes it out of the batches it pays, removes their requests of the user, and
-- changes nothing else.
pub reachable_withdrawal :
    {cw : Cosmwasm} (law : IsCosmwasm cw) (env at : Env) (msg : InstantiateMsg)
    (created : State × Response) (s : State) (user receiver denom : String) (pending : PendingBatch)
    → instantiate cw env msg empty_state ≡ ok created
    → Used cw created.0 s
    → s.pending_batch ≡ some pending
    → s.denom ≡ some denom
    → unclaimed s.previous_batches < u128_mod
    → 0 < owed at.time user s
    → (out : State × Response) × (withdraw_unbonded cw at user receiver s ≡ ok out)
      × PaidExactly at.time user receiver denom s out
unfolding find_request start
reachable_withdrawal {cw} law env at msg created s user receiver denom pending made used e ed fits
      some_owed =
    let books = (reachable-IsSound law env msg created s made (Used-Reach used)).books in
    let one = (subst (λ o. BooksOf o s.previous_batches s.unbond_requests) e books).one_request in
    let none_first : AllPositive created.0.unbond_requests =
      rw (instantiate-requests cw env msg created made) (λ id u r found. absurd (cc)) in
    let positive = Used-AllPositive law none_first used in
    withdraw_unbonded_exact law at user receiver s pending denom e ed books
      (All-map (λ r found. positive r.id user r found) (requests_of user s.unbond_requests)
        (start-Stored law at user receiver s one))
      fits some_owed
