-- ===== src/Ledger/Order.antt =====
-- The handlers of contracts/hub/src/execute.rs keep the maps of the unbonding queue in key order.
use joe_liquid_staking.Prelude.{
  ℕ, ◌≡◌, String, true, List, [], ◌∷◌, ok, bind_ok, ok-injective, add128, sub_word, ◌&&◌, ltb, ◌==◌,
  Bool-cases, Option-cases, inl, inr,
}
use joe_liquid_staking.Types.{Cosmwasm, IsCosmwasm, Env, Batch, UnbondRequest, Response}
use joe_liquid_staking.Store.Order.{Ascending}
use joe_liquid_staking.State.{State, find_batch, requests_of}
use joe_liquid_staking.State.Order.{
  batch_before, request_before, save_batch-Ascending, remove_batch-Ascending,
  save_request-Ascending, remove_request-Ascending,
}
use joe_liquid_staking.Execute.Unbond.{queue_unbond, submit_batch, submitted_batch}
use joe_liquid_staking.Execute.Reconcile.{reconcile, save_reconciled}
use joe_liquid_staking.Execute.Withdraw.{
  Claims, settle, claim, claim_request, claim_all, withdraw_unbonded,
}
use joe_liquid_staking.Ledger.Queue.{raised, queue_unbond-eq-ok}
use joe_liquid_staking.Ledger.Submit.{submit_batch-eq-ok}
use joe_liquid_staking.Ledger.Reconciled.{reconcile-eq-ok}
use joe_liquid_staking.Ledger.Withdraw.{withdraw-eq-ok, start}

-- The batches are in the order of their ids, the requests in that of batch and user.
abbrev pub QueueInOrder : List Batch → List UnbondRequest → Type 0
QueueInOrder batches requests = Ascending batch_before batches × Ascending request_before requests

abbrev pub InOrder : State → Type 0
InOrder s = QueueInOrder s.previous_batches s.unbond_requests

pub queue_unbond-InOrder :
    (env : Env) (user : String) (amount : ℕ) (s : State) (out : State × Response)
    → InOrder s
    → queue_unbond env user amount s ≡ ok out
    → InOrder out.0
queue_unbond-InOrder env user amount s out h e =
    let (pending, shares, _, _, eo) = queue_unbond-eq-ok env user amount s e in
    rw eo (
      h.0,
      save_request-Ascending (record (raised pending user s.unbond_requests) { shares = shares })
          s.unbond_requests h.1,
    )

pub submit_batch-InOrder :
    (cw : Cosmwasm) (env : Env) (s : State) (out : State × Response)
    → InOrder s
    → submit_batch cw env s ≡ ok out
    → InOrder out.0
submit_batch-InOrder cw env s out h e =
    let done = submit_batch-eq-ok cw env s out e in
    rw (done.batches, done.requests)
      (
        save_batch-Ascending (submitted_batch done.pending done.amount done.end_time)
            s.previous_batches h.0,
        h.1,
      )

save_reconciled-Ascending :
    (bs store : List Batch)
    → Ascending batch_before store
    → Ascending batch_before (save_reconciled bs store)
unfolding save_reconciled
save_reconciled-Ascending [] store h = h
save_reconciled-Ascending (b ∷ bs) store h =
    save_reconciled-Ascending bs _ (save_batch-Ascending (record b { reconciled = true }) store h)

pub reconcile-InOrder :
    (cw : Cosmwasm) (env : Env) (s : State) (out : State × Response)
    → InOrder s
    → reconcile cw env s ≡ ok out
    → InOrder out.0
reconcile-InOrder cw env s out h e =
    let (_, _, _, bs, _, _, _, _, _, eo) = reconcile-eq-ok cw env s out e in
    rw eo (save_reconciled-Ascending bs s.previous_batches h.0, h.1)

settle-Ascending :
    (id : ℕ) (b : Batch) (bs : List Batch)
    → Ascending batch_before bs
    → Ascending batch_before (settle id b bs)
unfolding settle
settle-Ascending id b bs h = elim (Bool-cases (b.total_shares == 0)) [
  | inl e ↦ rw e (remove_batch-Ascending id bs h)
  | inr e ↦ rw e (save_batch-Ascending b bs h)
]

module _ (cw : Cosmwasm) (user : String) where
  claim-InOrder :
      (b : Batch) (r : UnbondRequest) (c c' : Claims)
      → QueueInOrder c.batches c.requests
      → claim cw user b r c ≡ ok c'
      → QueueInOrder c'.batches c'.requests
  unfolding claim
  claim-InOrder b r c c' h e =
      bind_ok (cw.multiply_ratio b.amount_unclaimed r.shares b.total_shares) _ e λ refunded _ e.
        bind_ok (add128 c.refund refunded) _ e λ refund _ e.
          bind_ok (sub_word b.total_shares r.shares) _ e λ total_shares _ e.
            bind_ok (sub_word b.amount_unclaimed refunded) _ e λ amount_unclaimed _ e.
              rw (← ok-injective e) (
                settle-Ascending r.id
                    (record b { total_shares = total_shares; amount_unclaimed = amount_unclaimed })
                    c.batches h.0,
                remove_request-Ascending r.id user c.requests h.1,
              )

  claim_request-InOrder :
      (current_time : ℕ) (r : UnbondRequest) (c c' : Claims)
      → QueueInOrder c.batches c.requests
      → claim_request cw user current_time r c ≡ ok c'
      → QueueInOrder c'.batches c'.requests
  unfolding claim_request
  claim_request-InOrder current_time r c c' h e = elim (Option-cases (find_batch r.id c.batches)) [
    | inl missing ↦ rw (← ok-injective (rw (missing, claim_request) at e)) h
    | inr (b, found) ↦
        let e = rw (found, claim_request) at e in
        elim (Bool-cases (b.reconciled && ltb b.est_unbond_end_time current_time)) [
          | inl due ↦ claim-InOrder b r c c' h (rw due at e)
          | inr early ↦ rw (← ok-injective (rw early at e)) h
        ]
  ]

  claim_all-InOrder :
      (current_time : ℕ) (rs : List UnbondRequest) (c c' : Claims)
      → QueueInOrder c.batches c.requests
      → claim_all cw user current_time rs c ≡ ok c'
      → QueueInOrder c'.batches c'.requests
  unfolding claim_all
  claim_all-InOrder current_time [] c c' h e = rw (← ok-injective e) h
  claim_all-InOrder current_time (r ∷ rs) c c' h e =
      bind_ok (claim_request cw user current_time r c) _ e λ c1 e1 e.
        claim_all-InOrder current_time rs c1 c' (claim_request-InOrder current_time r c c1 h e1) e

pub withdraw_unbonded-InOrder :
    {cw : Cosmwasm} (law : IsCosmwasm cw)
    → (env : Env) (user receiver : String) (s : State) (out : State × Response) → InOrder s
    → withdraw_unbonded cw env user receiver s ≡ ok out
    → InOrder out.0
unfolding start
withdraw_unbonded-InOrder {cw} law env user receiver s out h e =
    let (_, c, ec, _, eo, _, _) = withdraw-eq-ok law env user receiver s out e in
    rw eo (
      claim_all-InOrder cw user env.time (requests_of user s.unbond_requests)
        (start law env user receiver s) c h ec)
