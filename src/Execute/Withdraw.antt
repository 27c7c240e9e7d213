-- ===== src/Execute/Withdraw.antt =====
-- `withdraw_unbonded` and `withdraw_unbonded_admin` of contracts/hub/src/execute.rs.
use joe_liquid_staking.Prelude.{
  ℕ, String, none, some, List, [], ◌∷◌, Result, ok, generic_err, ◌>>=◌, ◌>>◌, guard, load,
  if◌then◌else◌, ltb, ◌==◌, ◌&&◌, not, add128, sub_word,
}
use joe_liquid_staking.Types.{
  Cosmwasm, Env, Batch, UnbondRequest, CosmosMsg, SubMsg, Value, Response, respond,
}
use joe_liquid_staking.State.{
  State, assert_owner, find_batch, save_batch, remove_batch, remove_request, requests_of,
}

-- What the loop over the requests changes: the two maps, the amount to refund and the ids.
pub record Claims : Type 0 where
  pub batches : List Batch
  pub requests : List UnbondRequest
  pub refund : ℕ
  pub ids : List ℕ

-- The batch after a claim; with no shares left it is removed.
unfoldable pub settle : ℕ → Batch → List Batch → List Batch
settle id b batches = if b.total_shares == 0 then remove_batch id batches else save_batch b batches

module _ (cw : Cosmwasm) (user : String) where
  -- The body of the loop where the request's batch can be claimed.
  unfoldable pub claim : Batch → UnbondRequest → Claims → Result Claims
  unfolding settle
  claim b r c = do
    native_to_refund ← cw.multiply_ratio b.amount_unclaimed r.shares b.total_shares
    refund ← add128 c.refund native_to_refund
    total_shares ← sub_word b.total_shares r.shares
    amount_unclaimed ← sub_word b.amount_unclaimed native_to_refund
    ok (record {
      batches =
          settle r.id
            (record b { total_shares = total_shares; amount_unclaimed = amount_unclaimed })
            c.batches;
      requests = remove_request r.id user c.requests;
      refund = refund;
      ids = r.id ∷ c.ids;
    })

  -- One request: without a batch, or before the batch is reconciled and past its end, it is left.
  unfoldable pub claim_request : ℕ → UnbondRequest → Claims → Result Claims
  unfolding claim
  claim_request current_time r c = elim (find_batch r.id c.batches) [
    | none ↦ ok c
    | some b ↦ if b.reconciled && ltb b.est_unbond_end_time current_time then claim b r c else ok c
  ]

  unfoldable pub claim_all : ℕ → List UnbondRequest → Claims → Result Claims
  unfolding claim_request
  claim_all current_time [] c = ok c
  claim_all current_time (r ∷ rs) c = do
    c' ← claim_request current_time r c
    claim_all current_time rs c'

-- The ids in the order in which they were claimed.
abbrev reversed : List ℕ → List ℕ → List ℕ
reversed [] acc = acc
reversed (i ∷ is) acc = reversed is (i ∷ acc)

module _ (cw : Cosmwasm) where
  unfoldable pub withdraw_unbonded : Env → String → String → State → Result (State × Response)
  unfolding claim_all
  withdraw_unbonded env user receiver s = do
    denom ← load s.denom
    claims ← claim_all cw user env.time (requests_of user s.unbond_requests) (record {
      batches = s.previous_batches;
      requests = s.unbond_requests;
      refund = 0;
      ids = [];
    })
    guard (not (claims.refund == 0)) (generic_err "withdrawable amount is zero")
    ok (
      record s { previous_batches = claims.batches; unbond_requests = claims.requests },
      respond
          (SubMsg.plain
              (CosmosMsg.bank_send receiver (record { denom = denom; amount = claims.refund } ∷ []))
            ∷ [])
          (record {
            ty = "steakhub/unbonded_withdrawn";
            attributes =
                ("time", Value.number env.time)
                ∷ ("height", Value.number env.height)
                ∷ ("ids", Value.ids (reversed claims.ids []))
                ∷ ("user", Value.text user)
                ∷ ("receiver", Value.text receiver)
                ∷ ("amount_refunded", Value.number claims.refund)
                ∷ [];
          }
            ∷ [])
          "steakhub/withdraw_unbonded",
    )

  -- The owner withdraws in the name of `receiver`, to `receiver`.
  unfoldable pub withdraw_unbonded_admin : Env → String → String → State → Result (State × Response)
  withdraw_unbonded_admin env user receiver s = do
    assert_owner s user
    withdraw_unbonded env receiver receiver s
