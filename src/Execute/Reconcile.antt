-- ===== src/Execute/Reconcile.antt =====
-- `reconcile` of contracts/hub/src/execute.rs.
use joe_liquid_staking.Prelude.{
  ℕ, ◌-◌, true, List, [], ◌∷◌, map, Result, ok, ◌>>=◌, load, if◌then◌else◌, ltb, ◌==◌, add128,
  retain,
}
use joe_liquid_staking.Types.{Cosmwasm, Env, Batch, Value, Response, respond, find_coin}
use joe_liquid_staking.State.{State, unreconciled, save_batch}
use joe_liquid_staking.Math.{reconcile_batches}

-- The sum of the unclaimed amounts, from an accumulator.
unfoldable pub sum_unclaimed : ℕ → List Batch → Result ℕ
sum_unclaimed acc [] = ok acc
sum_unclaimed acc (b ∷ bs) = do acc' ← add128 acc b.amount_unclaimed; sum_unclaimed acc' bs

-- The batches to reconcile: not reconciled yet, and past their end time.
unfoldable pub due_batches : ℕ → List Batch → List Batch
due_batches current_time batches =
    retain (λ b. ltb b.est_unbond_end_time current_time) (unreconciled batches)

-- The last loop: each batch is marked and saved.
unfoldable pub save_reconciled : List Batch → List Batch → List Batch
save_reconciled [] batches = batches
save_reconciled (b ∷ bs) batches =
    save_reconciled bs (save_batch (record b { reconciled = true }) batches)

module _ (cw : Cosmwasm) where
  unfoldable pub reconcile : Env → State → Result (State × Response)
  unfolding due_batches
  reconcile env s = do
    let batches = due_batches env.time s.previous_batches
    expected_received ← sum_unclaimed 0 batches
    denom ← load s.denom
    unlocked_coins ← load s.unlocked_coins
    let expected_unlocked = (find_coin unlocked_coins denom).amount
    expected ← add128 expected_received expected_unlocked
    actual ← cw.query_balance env.contract denom
    let native_to_deduct = expected - actual
    reconciled ←
        (if native_to_deduct == 0 then ok batches else reconcile_batches batches native_to_deduct)
    ok (
      record s { previous_batches = save_reconciled reconciled s.previous_batches },
      respond []
          (record {
            ty = "steakhub/reconciled";
            attributes =
                ("ids", Value.ids (map (λ b. b.id) reconciled))
                ∷ ("native_deducted", Value.number native_to_deduct)
                ∷ [];
          }
            ∷ [])
          "steakhub/reconcile",
    )
