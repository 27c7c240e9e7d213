-- ===== src/Contract/Refines.antt =====
-- `execute` of contracts/hub/src/contract.rs against the unbonding queue as its users see it.
use joe_liquid_staking.Prelude.{ℕ, ◌+◌, ◌≡◌, ◌⊎◌, refl, Bool, String, Option, some, ok}
use mathlib.Core.Path.{subst}
use joe_liquid_staking.Types.{
  Cosmwasm, IsCosmwasm, Env, MessageInfo, ExecuteMsg, Response, PendingBatch,
}
use joe_liquid_staking.State.{State}
use joe_liquid_staking.Execute.Withdraw.{withdraw_unbonded}
use joe_liquid_staking.Execute.Unbond.{submit_batch}
use joe_liquid_staking.Execute.Reconcile.{reconcile}
use joe_liquid_staking.Contract.{execute}
use joe_liquid_staking.Contract.Frame.{SameQueue}
use joe_liquid_staking.Contract.Cases.{execute_cases}
use joe_liquid_staking.Ledger.Reconciled.{reconcile-eq-ok}
use joe_liquid_staking.Ledger.View.{
  Queue, view, raise, clear, queue_unbond-view, submit_batch-view, withdraw_unbonded-view,
}

-- A step of the abstract queue by a sender: the token adds shares of a user to the open batch, the
-- next batch is opened, or a user's shares in some batches go, at the request of that user or of the
-- owner.
pub data QueueStep (owner token : Option String) (sender : String) : Queue → Queue → Type 0 where
  idle : (q : Queue) → QueueStep owner token sender q q
  queued :
      (q : Queue) (id amount : ℕ) (user : String)
      → token ≡ some sender
      → q.open_id ≡ some id
      → QueueStep owner token sender q (record q { shares = raise id user amount q.shares })
  opened :
      (q : Queue) (id : ℕ)
      → q.open_id ≡ some id
      → QueueStep owner token sender q (record q { open_id = some (id + 1) })
  withdrawn :
      (q : Queue) (user : String) (gone : ℕ → Bool)
      → (user ≡ sender) ⊎ (owner ≡ some sender)
      → QueueStep owner token sender q (record q { shares = clear user gone q.shares })

module _ {cw : Cosmwasm} (law : IsCosmwasm cw) (env : Env) (info : MessageInfo) (s : State)
    (out : State × Response) where
  abbrev Goal : Type 0
  Goal = QueueStep s.owner s.steak_token info.sender (view s) (view out.0)

  stays : view out.0 ≡ view s → Goal
  stays e = rw e (QueueStep.idle (view s))

  unmoved : SameQueue s out.0 → Goal
  unmoved same = stays (rw (same.pending_batch, same.unbond_requests) refl)

  withdraws :
      (user receiver : String)
      → (user ≡ info.sender) ⊎ (s.owner ≡ some info.sender)
      → withdraw_unbonded cw env user receiver s ≡ ok out
      → Goal
  withdraws user receiver allowed h =
      let (gone, e) = withdraw_unbonded-view law env user receiver s out h in
      rw e (QueueStep.withdrawn (view s) user gone allowed)

  added :
      (pending : PendingBatch) (amount : ℕ) (user : String)
      → s.steak_token ≡ some info.sender
      → s.pending_batch ≡ some pending
      → QueueStep s.owner s.steak_token info.sender (view s) (record {
        open_id = some pending.id;
        shares = raise pending.id user amount (view s).shares;
      })
  added pending amount user sent e =
      let known : (view s).open_id ≡ some pending.id = rw e refl in
      subst
        (λ o.
          QueueStep s.owner s.steak_token info.sender (view s)
            (record { open_id = o; shares = raise pending.id user amount (view s).shares }))
        known (QueueStep.queued (view s) pending.id amount user sent known)

  submits : submit_batch cw env s ≡ ok out → Goal
  submits h =
      let (pending, e, moved) = submit_batch-view cw env s out h in
      rw moved (QueueStep.opened (view s) pending.id (rw e refl))

  reconciles : reconcile cw env s ≡ ok out → Goal
  reconciles h =
      let (_, _, _, bs, _, _, _, _, _, eo) = reconcile-eq-ok cw env s out h in stays (rw eo refl)

  -- What any call of `execute` does to the unbonding queue is a step of the abstract queue: nothing,
  -- shares of a user added to the open batch by the stored token, the next batch opened, or a
  -- user's shares in some batches cleared for that user or for the stored owner.
  pub execute_refines :
      (msg : ExecuteMsg)
      → execute cw env info msg s ≡ ok out
      → QueueStep s.owner s.steak_token info.sender (view s) (view out.0)
  execute_refines msg h =
      execute_cases
        (record {
          unmoved = unmoved;
          withdrawn = withdraws;
          submitted = submits;
          reconciled = reconciles;
        })
        msg h
        λ m user _ sent h.
          let (pending, e, moved) = queue_unbond-view cw env s out user m.amount h in
          rw moved (added pending m.amount user sent e)
