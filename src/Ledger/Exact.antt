-- ===== src/Ledger/Exact.antt =====
-- `withdraw_unbonded` of contracts/hub/src/execute.rs, against what the user is owed in the state
-- before it.
use joe_liquid_staking.Prelude.{
  ℕ, ◌<◌, ◌≡◌, refl, sym, ◌∙◌, ap, String, true, false, not, ◌&&◌, none, some, List, [], ◌∷◌, ok,
  err, arith, any, find, ◌==◌, str_eq, eq_iff, if◌then◌else◌, Bool-cases, inl, inr, All, u128_mod,
  generic_err, load, continues, ok-injective,
}
use mathlib.Core.Path.{subst}
use native.Mathlib.Nat.{le_trans}
use joe_liquid_staking.Types.{
  Cosmwasm, IsCosmwasm, Env, PendingBatch, UnbondRequest, SubMsg, CosmosMsg, Response, respond,
}
use joe_liquid_staking.State.{State, find_batch, find_request, requests_of}
use joe_liquid_staking.Math.Reconcile.{unclaimed}
use joe_liquid_staking.Execute.Withdraw.{Claims, claim_all, withdraw_unbonded}
use joe_liquid_staking.Ledger.{Balanced, BooksOf}
use joe_liquid_staking.Ledger.Withdraw.{start, start-Stored, withdraw-eq-ok, requests_of-Apart}
use joe_liquid_staking.Ledger.Payout.{is_claimable, payout, paid_batch, find-requests_of}
use joe_liquid_staking.Ledger.Settled.{Settled, claim_all_total}

-- What a user's requests are worth in a state.
abbrev pub owed : ℕ → String → State → ℕ
owed time user s = payout time s.previous_batches (requests_of user s.unbond_requests)

-- A withdrawal that sends the receiver what the user is owed, and takes it out of the batches and
-- requests that it pays and out of nothing else.
pub record PaidExactly (time : ℕ) (user receiver denom : String) (s : State)
    (out : State × Response) : Type 0 where
  pub sent :
      out.1.messages
      ≡ SubMsg.plain
          (CosmosMsg.bank_send receiver (record { denom = denom; amount = owed time user s } ∷ []))
        ∷ []
  pub kept : out.0 ≡ record s {
    previous_batches = out.0.previous_batches;
    unbond_requests = out.0.unbond_requests;
  }
  pub batches :
      (id : ℕ)
      → find_batch id out.0.previous_batches
        ≡ paid_batch time
            (find_batch id s.previous_batches)
            (find_request id user s.unbond_requests)
  pub requests :
      (id : ℕ) (u : String)
      → find_request id u out.0.unbond_requests ≡ (
          if str_eq u user && is_claimable time (find_batch id s.previous_batches)
          then none
          else find_request id u s.unbond_requests)

any-find :
    (id : ℕ) (rs : List UnbondRequest)
    → any (λ (r : UnbondRequest). r.id == id) rs ≡ false
    → find (λ (r : UnbondRequest). r.id == id) rs ≡ none
any-find id [] h = refl
any-find id (r ∷ rs) h = ground (arith, any-find id rs)

module _ {cw : Cosmwasm} (law : IsCosmwasm cw) (env : Env) (user receiver : String) (s : State)
    (pending : PendingBatch) (denom : String) where
  -- The loop of the handler, from the state that the handler starts it in.
  loop :
      s.pending_batch ≡ some pending
      → Balanced s
      → All (λ (r : UnbondRequest). 0 < r.shares) (requests_of user s.unbond_requests)
      → unclaimed s.previous_batches < u128_mod
      → (c : Claims) × (claim_all cw user env.time
            (requests_of user s.unbond_requests)
            (start law env user receiver s)
          ≡ ok c)
        × Settled user env.time
            (requests_of user s.unbond_requests)
            (start law env user receiver s)
            c
  unfolding start
  loop e books positive fits =
      let books = subst (λ o. BooksOf o s.previous_batches s.unbond_requests) e books in
      claim_all_total law user env.time pending (requests_of user s.unbond_requests)
        (start law env user receiver s) books
        (start-Stored law env user receiver s books.one_request)
        (λ id. le_trans (requests_of-Apart id user s.unbond_requests) (books.one_request id user))
        positive (omega (arith, fits))

  request_after :
      (c : Claims)
      → Settled user env.time (requests_of user s.unbond_requests) (start law env user receiver s) c
      → (id : ℕ) (u : String)
      → find_request id u c.requests ≡ (
          if str_eq u user && is_claimable env.time (find_batch id s.previous_batches)
          then none
          else find_request id u s.unbond_requests)
  unfolding start
  request_after c settled id u = elim (Bool-cases (str_eq u user)) [
    | inl e ↦
        let owner : u ≡ user = (eq_iff u user).0 e in
        rw (e, owner)
          (elim (Bool-cases
            (any (λ (r : UnbondRequest). r.id == id) (requests_of user s.unbond_requests))) [
              | inl some_request ↦ ground (arith, settled.request id)
              | inr no_request ↦
                  let none_stored = any-find id (requests_of user s.unbond_requests) no_request in
                  let found = find-requests_of id user s.unbond_requests in
                  ground (arith, settled.request id)
            ])
    | inr e ↦ rw e (
        sym (find-requests_of id u c.requests)
        ∙ ap (find (λ (r : UnbondRequest). r.id == id)) (settled.others u e)
        ∙ find-requests_of id u s.unbond_requests)
  ]

  -- What the handler returns, once its loop has settled the requests.
  paid :
      (out : State × Response) (c : Claims)
      → s.denom ≡ some denom
      → claim_all cw user env.time
          (requests_of user s.unbond_requests)
          (start law env user receiver s)
        ≡ ok c
      → Settled user env.time (requests_of user s.unbond_requests) (start law env user receiver s) c
      → withdraw_unbonded cw env user receiver s ≡ ok out
      → PaidExactly env.time user receiver denom s out
  unfolding start
  paid out c ed ec settled h =
      let (denom', c', ec', _, eo, messages, ed') = withdraw-eq-ok law env user receiver s out h in
      let same_c : c' ≡ c = ok-injective (sym ec' ∙ ec) in
      let same_denom : denom' ≡ denom = cc (ed, ed') in
      let amount : c.refund ≡ owed env.time user s = ground (arith, settled.refund) in
      record {
        sent = messages ∙ rw (same_c, same_denom, amount) refl;
        kept = rw eo refl;
        batches = λ id.
            rw (eo, same_c)
              (settled.batch id
                ∙ ap (paid_batch env.time (find_batch id s.previous_batches))
                    (find-requests_of id user s.unbond_requests));
        requests = λ id u. rw (eo, same_c) (request_after c settled id u);
      }

  -- For balanced books, a stored denom, requests of the user that all have shares, and unclaimed
  -- amounts that fit in 128 bits: where something is owed to the user, the withdrawal succeeds. It
  -- sends the receiver, in one message, exactly what the user is owed, the sum over the user's
  -- requests in claimable batches of the request's part of the batch, rounded down; it takes that
  -- out of those batches, removes those requests, and changes nothing else.
  pub withdraw_unbonded_exact :
      s.pending_batch ≡ some pending
      → s.denom ≡ some denom
      → Balanced s
      → All (λ (r : UnbondRequest). 0 < r.shares) (requests_of user s.unbond_requests)
      → unclaimed s.previous_batches < u128_mod
      → 0 < owed env.time user s
      → (out : State × Response) × (withdraw_unbonded cw env user receiver s ≡ ok out)
        × PaidExactly env.time user receiver denom s out
  unfolding withdraw_unbonded start respond
  withdraw_unbonded_exact e ed books positive fits some_owed =
      let (c, ec, settled) = loop e books positive fits in
      let goes : not (c.refund == 0) ≡ true = ground (arith, settled.refund, some_owed) in
      let (out, h) = continues (load s.denom) _ (ap load ed) (
        continues
          (claim_all cw user env.time (requests_of user s.unbond_requests)
            (start law env user receiver s))
          _ ec (rw goes (_, refl))) in
      (out, h, paid out c ed ec settled h)

  -- For balanced books, a stored denom, requests of the user that all have shares, and unclaimed
  -- amounts that fit in 128 bits, a withdrawal by a user who is owed nothing fails with the error
  -- that the withdrawable amount is zero.
  pub withdraw_unbonded_nothing :
      s.pending_batch ≡ some pending
      → s.denom ≡ some denom
      → Balanced s
      → All (λ (r : UnbondRequest). 0 < r.shares) (requests_of user s.unbond_requests)
      → unclaimed s.previous_batches < u128_mod
      → owed env.time user s ≡ 0
      → withdraw_unbonded cw env user receiver s ≡ err (generic_err "withdrawable amount is zero")
  unfolding withdraw_unbonded start respond
  withdraw_unbonded_nothing e ed books positive fits nothing =
      let (c, ec, settled) = loop e books positive fits in
      let stops : not (c.refund == 0) ≡ false = ground (arith, settled.refund, nothing) in
      rw (ed, withdraw_unbonded) (rw (ec, withdraw_unbonded) (rw (stops, withdraw_unbonded) refl))

module _ {cw : Cosmwasm} (law : IsCosmwasm cw) (env : Env) (user receiver : String) (s : State)
    (pending : PendingBatch) (out : State × Response) where
  -- A withdrawal that succeeds pays exactly, and leaves the list of any other user's requests.
  pub withdraw-PaidExactly :
      s.pending_batch ≡ some pending
      → Balanced s
      → All (λ (r : UnbondRequest). 0 < r.shares) (requests_of user s.unbond_requests)
      → unclaimed s.previous_batches < u128_mod
      → withdraw_unbonded cw env user receiver s ≡ ok out
      → (denom : String) × PaidExactly env.time user receiver denom s out
        × ((u : String)
            → str_eq u user ≡ false
            → requests_of u out.0.unbond_requests ≡ requests_of u s.unbond_requests)
  unfolding start
  withdraw-PaidExactly e books positive fits h =
      let (denom, c', ec', _, eo, _, ed) = withdraw-eq-ok law env user receiver s out h in
      let (c, ec, settled) = loop law env user receiver s pending denom e books positive fits in
      let same : c' ≡ c = ok-injective (sym ec' ∙ ec) in
      (
        denom,
        paid law env user receiver s pending denom out c ed ec settled h,
        λ u ne. rw (eo, same) (settled.others u ne),
      )
