-- ===== src/Ledger/Withdraw.antt =====
-- `withdraw_unbonded`: the loop over a user's requests keeps the books, and pays out of the batches
-- exactly what it refunds.
use joe_liquid_staking.Prelude.{
  ℕ, ◌+◌, ◌≤◌, ◌<◌, ◌≡◌, ◌≢◌, refl, sym, ap, String, not, ◌&&◌, some, List, [], ◌∷◌, ok, arith, All,
  ◌==◌, str_eq, ltb, bind_ok, ok-injective, load, load-eq-ok, guard-eq-ok, Bool-cases, Option-cases,
  inl, inr,
}
use mathlib.Core.Path.{subst}
use native.Mathlib.Nat.{le_trans}
use joe_liquid_staking.Types.{
  Cosmwasm, IsCosmwasm, Env, PendingBatch, UnbondRequest, SubMsg, CosmosMsg, Response, respond,
}
use joe_liquid_staking.Store.Laws.{count, All-retain, find_of_In}
use joe_liquid_staking.State.{State, find_batch, find_request, requests_of, is_key}
use joe_liquid_staking.Math.Reconcile.{unclaimed}
use joe_liquid_staking.Execute.Withdraw.{Claims, claim_request, claim_all, withdraw_unbonded}
use joe_liquid_staking.Ledger.{IsBalanced, BooksOf, Balanced}
use joe_liquid_staking.Ledger.Claims.{claim-eq-ok, claim-IsBalanced, claim-unclaimed, claim-others}

-- The requests still to come are stored, each under a key of its own.
abbrev pub Stored : String → Claims → List UnbondRequest → Type 0
Stored user c rs = All (λ (r : UnbondRequest). find_request r.id user c.requests ≡ some r) rs

abbrev pub Apart : List UnbondRequest → Type 0
Apart rs = (id : ℕ) → count (λ (r : UnbondRequest). r.id == id) rs ≤ 1

-- What holds between the claims before and after a part of the loop.
pub record Kept (pending : PendingBatch) (c c' : Claims) : Type 0 where
  pub books : IsBalanced pending c'.batches c'.requests
  pub paid : unclaimed c'.batches + c'.refund ≡ unclaimed c.batches + c.refund

pub Stored-after :
    (user : String) (id : ℕ) (c c' : Claims) (rs : List UnbondRequest)
    → ((other : ℕ)
        → other ≢ id
        → find_request other user c'.requests ≡ find_request other user c.requests)
    → count (λ (r : UnbondRequest). r.id == id) rs ≡ 0
    → Stored user c rs
    → Stored user c' rs
Stored-after user id c c' [] others h stored = tt
Stored-after user id c c' (r ∷ rs) others h stored = (
  ground (arith, others r.id, stored.0),
  Stored-after user id c c' rs others (ground arith) stored.1,
)

module _ {cw : Cosmwasm} (law : IsCosmwasm cw) (user : String) (current_time : ℕ) where
  pub claim_request-Kept :
      (pending : PendingBatch) (r : UnbondRequest) (c c' : Claims)
      → IsBalanced pending c.batches c.requests
      → find_request r.id user c.requests ≡ some r
      → claim_request cw user current_time r c ≡ ok c'
      → Kept pending c c'
        × ((other : ℕ)
            → other ≢ r.id
            → find_request other user c'.requests ≡ find_request other user c.requests)
  unfolding claim_request
  claim_request-Kept pending r c c' books request h =
      elim (Option-cases (find_batch r.id c.batches)) [
        | inl e ↦ same (rw (e, claim_request) at h)
        | inr (b, e) ↦ elim (Bool-cases (b.reconciled && ltb b.est_unbond_end_time current_time)) [
          | inl due ↦
              let done = claim-eq-ok law user b r c c' (ground (arith, e, due, h)) in
              (
                record {
                  books = claim-IsBalanced law user done books e request;
                  paid = claim-unclaimed law user done books e request;
                },
                claim-others law user done books e request,
              )
          | inr early ↦ same (ground (arith, e, early, h))
        ]
      ]
    where
      same :
          ok c ≡ ok c'
          → Kept pending c c'
            × ((other : ℕ)
                → other ≢ r.id
                → find_request other user c'.requests ≡ find_request other user c.requests)
      same e = rw (← ok-injective e) (record { books = books; paid = refl }, λ other ne. refl)

  claim_all-Kept :
      (pending : PendingBatch) (rs : List UnbondRequest) (c c' : Claims)
      → IsBalanced pending c.batches c.requests
      → Stored user c rs
      → Apart rs
      → claim_all cw user current_time rs c ≡ ok c'
      → Kept pending c c'
  unfolding claim_all
  claim_all-Kept pending [] c c' books stored apart h =
      rw (← ok-injective h) (record { books = books; paid = refl })
  claim_all-Kept pending (r ∷ rs) c c' books stored apart h =
      bind_ok (claim_request cw user current_time r c) _ h λ c1 e1 h1.
        let (kept, others) = claim_request-Kept pending r c c1 books stored.0 e1 in
        let rest =
          claim_all-Kept pending rs c1 c' kept.books
            (Stored-after user r.id c c1 rs others (ground (arith, apart r.id)) stored.1)
            (λ id. omega (arith, apart id)) h1 in
        record { books = rest.books; paid = omega (arith, rest.paid, kept.paid) }

pub requests_of-Apart :
    (id : ℕ) (user : String) (rs : List UnbondRequest)
    → count (λ (r : UnbondRequest). r.id == id) (requests_of user rs) ≤ count (is_key id user) rs
unfolding requests_of
requests_of-Apart id user [] = omega arith
requests_of-Apart id user (r ∷ rs) = ground (arith, requests_of-Apart id user rs)

-- What a withdrawal pays.
abbrev pub Paid : String → State → State × Response → Type 0
Paid receiver s out =
    (denom : String) × (refund : ℕ) × (s.denom ≡ some denom)
    × (0 < refund)
    × (out.1.messages
        ≡ SubMsg.plain
            (CosmosMsg.bank_send receiver (record { denom = denom; amount = refund } ∷ []))
          ∷ [])
    × (unclaimed out.0.previous_batches + refund ≡ unclaimed s.previous_batches)

module _ {cw : Cosmwasm} (law : IsCosmwasm cw) (env : Env) (user receiver : String)
    (s : State) where
  unfoldable pub start : Claims
  start = record {
    batches = s.previous_batches;
    requests = s.unbond_requests;
    refund = 0;
    ids = [];
  }

  pub start-Stored :
      ((id : ℕ) (u : String) → count (is_key id u) s.unbond_requests ≤ 1)
      → Stored user start (requests_of user s.unbond_requests)
  unfolding start requests_of find_request
  start-Stored one =
      All-retain (λ r. str_eq r.user user)
        (λ (r : UnbondRequest). find_request r.id user s.unbond_requests ≡ some r) s.unbond_requests
        λ r i e.
          find_of_In (is_key r.id user) r s.unbond_requests (one r.id user) i (ground (arith, e))

  -- The loop's result, and what the handler makes of it.
  pub withdraw-eq-ok :
      (out : State × Response)
      → withdraw_unbonded cw env user receiver s ≡ ok out
      → (denom : String) × (c : Claims) × (claim_all cw user env.time
            (requests_of user s.unbond_requests)
            start
          ≡ ok c)
        × (c.refund ≢ 0)
        × (out.0 ≡ record s { previous_batches = c.batches; unbond_requests = c.requests })
        × (out.1.messages
            ≡ SubMsg.plain
                (CosmosMsg.bank_send receiver (record { denom = denom; amount = c.refund } ∷ []))
              ∷ [])
        × (s.denom ≡ some denom)
  unfolding withdraw_unbonded start respond
  withdraw-eq-ok out h = bind_ok (load s.denom) _ h λ denom ed h.
      bind_ok (claim_all cw user env.time (requests_of user s.unbond_requests) start) _ h λ c ec h.
        let (some_refund, h) = guard-eq-ok (not (c.refund == 0)) _ _ h in
        let done = ok-injective h in
        (
          denom,
          c,
          ec,
          ground (arith, some_refund),
          ap (λ (o : State × Response). o.0) (sym done),
          ap (λ (o : State × Response). o.1.messages) (sym done),
          load-eq-ok s.denom denom ed,
        )

  withdraw-Kept :
      (pending : PendingBatch) (c : Claims)
      → IsBalanced pending s.previous_batches s.unbond_requests
      → claim_all cw user env.time (requests_of user s.unbond_requests) start ≡ ok c
      → Kept pending start c
  unfolding start
  withdraw-Kept pending c books h =
      claim_all-Kept law user env.time pending (requests_of user s.unbond_requests) start c books
        (start-Stored books.one_request)
        (λ id. le_trans (requests_of-Apart id user s.unbond_requests) (books.one_request id user)) h

  -- A withdrawal keeps the books balanced.
  pub withdraw_unbonded-Balanced :
      (out : State × Response)
      → Balanced s
      → withdraw_unbonded cw env user receiver s ≡ ok out
      → Balanced out.0
  unfolding start
  withdraw_unbonded-Balanced out books h =
      let (denom, c, ec, _, eo, _, _) = withdraw-eq-ok out h in
      rw eo (elim (Option-cases s.pending_batch) [
        | inl e ↦ rw e tt
        | inr (pending, e) ↦
            rw e
              (withdraw-Kept pending c
                (subst (λ o. BooksOf o s.previous_batches s.unbond_requests) e books) ec).books
      ])

  -- With balanced books a successful withdrawal sends the receiver, in one message, an amount of the
  -- stored denom that is not zero, and the unclaimed amounts of the batches fall by exactly it.
  pub withdraw_unbonded_pays :
      (out : State × Response) (pending : PendingBatch)
      → s.pending_batch ≡ some pending
      → Balanced s
      → withdraw_unbonded cw env user receiver s ≡ ok out
      → Paid receiver s out
  unfolding start
  withdraw_unbonded_pays out pending e books h =
      let (denom, c, ec, pos, eo, messages, ed) = withdraw-eq-ok out h in
      let kept =
        withdraw-Kept pending c
          (subst (λ o. BooksOf o s.previous_batches s.unbond_requests) e books) ec in
      (denom, c.refund, ed, omega (arith, pos), messages, rw eo (omega (arith, kept.paid)))
