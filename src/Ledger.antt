-- ===== src/Ledger.antt =====
-- The books of the unbonding queue in contracts/hub/src/execute.rs: how the pending batch, the
-- previous batches and the users' requests agree, and what each handler does to them.
pub mod Maps
pub mod Queue
pub mod Submit
pub mod Due
pub mod Claims
pub mod Reconcile
pub mod Reconciled
pub mod Promised
pub mod Withdraw
pub mod Payout
pub mod Settle
pub mod Settled
pub mod Exact
pub mod Fair
pub mod View
pub mod Order
use joe_liquid_staking.Prelude.{
  ℕ, ◌≤◌, ◌<◌, ◌≡◌, String, Option, none, some, List, total, ◌==◌, if◌then◌else◌,
}
use joe_liquid_staking.Types.{PendingBatch, Batch, UnbondRequest}
use joe_liquid_staking.Store.Laws.{count}
use joe_liquid_staking.State.{State, find_batch, is_key}

-- The shares that the requests hold in a batch.
abbrev pub shares_in : ℕ → List UnbondRequest → ℕ
shares_in id requests = total (λ r. if r.id == id then r.shares else 0) requests

-- Each batch, pending or previous, counts exactly the shares that its requests hold; no batch or
-- request is ahead of the pending batch; and no key is stored twice.
pub record IsBalanced (pending : PendingBatch) (batches : List Batch)
    (requests : List UnbondRequest) : Type 0 where
  pub queued : shares_in pending.id requests ≡ pending.usteak_to_burn
  pub later : (id : ℕ) → pending.id < id → shares_in id requests ≡ 0
  pub shared :
      (id : ℕ) (b : Batch) → find_batch id batches ≡ some b → shares_in id requests ≡ b.total_shares
  pub fresh : (id : ℕ) → pending.id ≤ id → find_batch id batches ≡ none
  pub one_batch : (id : ℕ) → count (λ b. b.id == id) batches ≤ 1
  pub one_request : (id : ℕ) (user : String) → count (is_key id user) requests ≤ 1

-- The books of a storage; before `instantiate` there are none.
abbrev pub BooksOf : Option PendingBatch → List Batch → List UnbondRequest → Type 0
BooksOf none batches requests = Unit
BooksOf (some pending) batches requests = IsBalanced pending batches requests

abbrev pub Balanced : State → Type 0
Balanced s = BooksOf s.pending_batch s.previous_batches s.unbond_requests
