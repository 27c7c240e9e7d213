-- ===== src/Execute/Unbond.antt =====
-- `queue_unbond` and `submit_batch` of contracts/hub/src/execute.rs.
use joe_liquid_staking.Prelude.{
  ℕ, String, false, some, List, [], ◌∷◌, ◌++◌, map, Result, ok, generic_err, ◌>>=◌, ◌>>◌, guard,
  load, unwrap_or, if◌then◌else◌, leb, add64, add128,
}
use joe_liquid_staking.Types.{
  Cosmwasm, Env, PendingBatch, Batch, UnbondRequest, CosmosMsg, SubMsg, WasmBody, Value, Response,
  respond, undelegation_msg, ExecuteMsg,
}
use joe_liquid_staking.State.{State, find_request, save_request, save_batch}
use joe_liquid_staking.Helpers.{query_delegations, query_cw20_total_supply, get_denom_balance}
use joe_liquid_staking.Math.{compute_unbond_amount, compute_undelegations}
use joe_liquid_staking.Execute.Bond.{reply_register_received_coins}

unfoldable pub queue_unbond : Env → String → ℕ → State → Result (State × Response)
queue_unbond env receiver usteak_to_burn s = do
  pending ← load s.pending_batch
  queued ← add128 pending.usteak_to_burn usteak_to_burn
  let request : UnbondRequest =
      unwrap_or (find_request pending.id receiver s.unbond_requests)
        (record { id = pending.id; user = receiver; shares = 0 })
  shares ← add128 request.shares usteak_to_burn
  let submit : List SubMsg =
      SubMsg.plain (CosmosMsg.wasm_execute env.contract (WasmBody.hub ExecuteMsg.submit_batch) [])
      ∷ []
  ok (
    record s {
      pending_batch = some (record pending { usteak_to_burn = queued });
      unbond_requests = save_request (record request { shares = shares }) s.unbond_requests;
    },
    respond (if leb pending.est_unbond_start_time env.time then submit else [])
        (record {
          ty = "steakhub/unbond_queued";
          attributes =
              ("time", Value.number env.time)
              ∷ ("height", Value.number env.height)
              ∷ ("id", Value.number pending.id)
              ∷ ("receiver", Value.text receiver)
              ∷ ("usteak_to_burn", Value.number usteak_to_burn)
              ∷ [];
        }
          ∷ [])
        "steakhub/queue_unbond",
  )

-- The batch that `submit_batch` stores and the pending batch that follows it.
unfoldable pub submitted_batch : PendingBatch → ℕ → ℕ → Batch
submitted_batch pending amount end_time = record {
  id = pending.id;
  reconciled = false;
  total_shares = pending.usteak_to_burn;
  amount_unclaimed = amount;
  est_unbond_end_time = end_time;
}

module _ (cw : Cosmwasm) where
  unfoldable pub submit_batch : Env → State → Result (State × Response)
  unfolding submitted_batch
  submit_batch env s = do
    denom ← load s.denom
    steak_token ← load s.steak_token
    validators ← load s.validators
    unbond_period ← load s.unbond_period
    pending ← load s.pending_batch
    guard (leb pending.est_unbond_start_time env.time)
        (generic_err "batch can only be submitted for unbonding after {}")
    delegations ← query_delegations cw validators env.contract denom
    usteak_supply ← query_cw20_total_supply cw steak_token
    amount ← compute_unbond_amount cw usteak_supply pending.usteak_to_burn delegations
    undelegations ← compute_undelegations amount delegations denom
    end_time ← add64 env.time unbond_period
    epoch_period ← load s.epoch_period
    next_id ← add64 pending.id 1
    start_time ← add64 env.time epoch_period
    balance ← get_denom_balance cw env.contract denom
    ok (
      record s {
        previous_batches = save_batch (submitted_batch pending amount end_time) s.previous_batches;
        pending_batch =
            some (record { id = next_id; usteak_to_burn = 0; est_unbond_start_time = start_time });
        prev_denom = some balance;
      },
      respond
          (map
              (λ d.
                SubMsg.reply_on_success (undelegation_msg d env.contract)
                  reply_register_received_coins)
              undelegations
            ++ SubMsg.plain
                (CosmosMsg.wasm_execute steak_token (WasmBody.cw20_burn pending.usteak_to_burn) [])
              ∷ [])
          (record {
            ty = "steakhub/unbond_submitted";
            attributes =
                ("time", Value.number env.time)
                ∷ ("height", Value.number env.height)
                ∷ ("id", Value.number pending.id)
                ∷ ("native_unbonded", Value.number amount)
                ∷ ("usteak_burned", Value.number pending.usteak_to_burn)
                ∷ [];
          }
            ∷ [])
          "steakhub/unbond",
    )
